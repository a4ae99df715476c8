-- ===== src/Uuid/Tests.antt =====
-- The theorems of the children of Uuid at concrete ids.
use hub_core.Base.{ℕ, ◌≡◌, refl, List, [], ◌∷◌, some, All, arith}
use hub_core.Base.Text.{Text, IsByte, ascii}
use hub_core.Base.Result.{ok}
use hub_core.Uuid.{expand_command_id, parse_uuid_compact_bytes}
use hub_core.Uuid.RoundTrip.{parse_uuid_compact_bytes-expand}

abbrev id_bytes : List ℕ
id_bytes = 0 ∷ 1 ∷ 35 ∷ 69 ∷ 103 ∷ 137 ∷ 171 ∷ 205 ∷ 239 ∷ 255 ∷ 16 ∷ 32 ∷ 48 ∷ 64 ∷ 80 ∷ 250 ∷ []

abbrev id_text : Text
id_text = ascii "00012345-6789-abcd-efff-1020304050fa"

expand_command_id_test : expand_command_id id_bytes ≡ some id_text
unfolding expand_command_id
expand_command_id_test = refl

parse_test : parse_uuid_compact_bytes id_text ≡ ok id_bytes
unfolding parse_uuid_compact_bytes
parse_test = refl

-- Upper case, and the hyphens elsewhere.
parse_mixed_test :
    parse_uuid_compact_bytes (ascii "000-123456789ABCDEFFF1020304050Fa-") ≡ ok id_bytes
unfolding parse_uuid_compact_bytes
parse_mixed_test = refl

id_bytes-IsByte : All IsByte id_bytes
id_bytes-IsByte = ground arith

parse_uuid_compact_bytes-expand_example :
    (s : Text) × (expand_command_id id_bytes ≡ some s) × (parse_uuid_compact_bytes s ≡ ok id_bytes)
parse_uuid_compact_bytes-expand_example =
    parse_uuid_compact_bytes-expand id_bytes refl id_bytes-IsByte
