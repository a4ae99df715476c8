-- ===== src/Uuid/RoundTrip.antt =====
-- A command id written as a text and read back.
use hub_core.Base.{ℕ, ◌+◌, ◌*◌, ◌/◌, ◌%◌, ◌≡◌, refl, sym, List, [], ◌∷◌, some, arith, length, All}
use hub_core.Base.Text.{Text, IsByte}
use hub_core.Base.Result.{ok}
use hub_core.Uuid.{expand_from, expand_command_id, command_id_len, parse_uuid_compact_bytes}
use hub_core.Uuid.Digits.{hex_value-hex_digit, hex_digit-ne-dash}
use hub_core.Uuid.Parse.{nibbles, pack, parse_uuid_compact_bytes_iff}

-- The halves of each byte.
halves : List ℕ → List ℕ
halves [] = []
halves (b ∷ bs) = b / 16 ∷ b % 16 ∷ halves bs

length-halves : (bs : List ℕ) → length (halves bs) ≡ 2 * length bs
unfolding halves
length-halves [] = omega arith
length-halves (b ∷ bs) = omega (arith, length-halves bs)

pack-halves : (bs : List ℕ) → pack (halves bs) ≡ bs
unfolding halves pack
pack-halves [] = refl
pack-halves (b ∷ bs) = ground (arith, pack-halves bs)

nibbles-expand_from :
    (i : ℕ) (bs : List ℕ) → All IsByte bs → nibbles (expand_from i bs) ≡ some (halves bs)
unfolding halves nibbles expand_from
nibbles-expand_from i [] h = refl
nibbles-expand_from i (b ∷ bs) h = ground (
  arith,
  hex_value-hex_digit (b / 16),
  hex_value-hex_digit (b % 16),
  hex_digit-ne-dash (b / 16),
  hex_digit-ne-dash (b % 16),
  nibbles-expand_from (i + 1) bs h.1,
)

-- The text that `expand_command_id` returns for a 16-byte id is accepted by
-- `parse_uuid_compact_bytes`, which gives the same 16 bytes back.
pub parse_uuid_compact_bytes-expand :
    (bs : List ℕ)
    → length bs ≡ command_id_len
    → All IsByte bs
    → (s : Text) × (expand_command_id bs ≡ some s) × (parse_uuid_compact_bytes s ≡ ok bs)
unfolding expand_command_id
parse_uuid_compact_bytes-expand bs l h = (
  expand_from 0 bs,
  refl,
  (parse_uuid_compact_bytes_iff (expand_from 0 bs) bs).1 (
    halves bs,
    nibbles-expand_from 0 bs h,
    omega (arith, length-halves bs),
    sym (pack-halves bs),
  ),
)
