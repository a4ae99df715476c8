-- ===== src/Build.antt =====
-- src/build.rs: the identity that a build takes from its environment or from a file, or generates.
pub mod Lines
pub mod Uuid
pub mod Stays
pub mod Tests
use hub_core.Base.{
  ℕ, zero, suc, ◌+◌, ◌/◌, ◌%◌, Bool, true, false, ◌&&◌, ◌||◌, List, [], ◌∷◌, ◌++◌, Option, none,
  some, ◌==◌, if◌then◌else◌,
}
use hub_core.Base.Text.{Text, ascii}
use hub_core.Base.Result.{Run, ok, panic}
use hub_core.Uuid.{hex_digit}

pub record HubIdentity : Type 0 where
  pub device_id : Text
  pub hub_secret : Text

abbrev pub both_vars : Option Text → Option Text → Option HubIdentity
both_vars (some id) (some secret) = some (record { device_id = id; hub_secret = secret })
both_vars none secret = none
both_vars (some id) none = none

-- From the variables HUB_DEVICE_ID and HUB_SECRET.
unfoldable pub env_identity : Option Text → Option Text → Option HubIdentity
env_identity device_id hub_secret = both_vars device_id hub_secret

-- `s.strip_prefix(p)`.
unfoldable pub strip_prefix : Text → Text → Option Text
strip_prefix [] s = some s
strip_prefix (p ∷ ps) [] = none
strip_prefix (p ∷ ps) (c ∷ cs) = let rest = strip_prefix ps cs in if p == c then rest else none

abbrev pub add_to_first : ℕ → List Text → List Text
add_to_first c [] = (c ∷ []) ∷ []
add_to_first c (line ∷ rest) = (c ∷ line) ∷ rest

abbrev pub ends_line : Text → Bool
ends_line [] = false
ends_line (c ∷ cs) = c == b'\n'

-- `s.lines()`: a line ends at a line feed, with the carriage return in front of it, or at the end of the text.
unfoldable pub lines : Text → List Text
lines [] = []
lines (c ∷ cs) =
    let rest = lines cs in
    if c == b'\n'
    then [] ∷ rest
    else if c == b'\r' && ends_line cs
    then rest
    else add_to_first c rest

pub record Found : Type 0 where
  pub device_id : Option Text
  pub hub_secret : Option Text

-- One line, from what the two prefixes leave of it.
abbrev pub take_value : Option Text → Option Text → Found → Found
take_value (some value) secret s = record s { device_id = some value }
take_value none (some value) s = record s { hub_secret = some value }
take_value none none s = s

unfoldable pub parse_loop : List Text → Found → Found
unfolding strip_prefix
parse_loop [] s = s
parse_loop (line ∷ rest) s = parse_loop rest (
    take_value (strip_prefix (ascii "HUB_DEVICE_ID=") line)
      (strip_prefix (ascii "HUB_SECRET=") line) s)

unfoldable pub parse_identity_file : Text → Option HubIdentity
unfolding lines parse_loop
parse_identity_file content =
    let s = parse_loop (lines content) (record { device_id = none; hub_secret = none }) in
    both_vars s.device_id s.hub_secret

-- `{byte:02x}` of each byte.
unfoldable pub hex_string : List ℕ → Text
hex_string [] = []
hex_string (byte ∷ bytes) = hex_digit (byte / 16) ∷ hex_digit (byte % 16) ∷ hex_string bytes

abbrev pub change_at : ℕ → (ℕ → ℕ) → List ℕ → List ℕ
change_at i f [] = []
change_at zero f (b ∷ bs) = f b ∷ bs
change_at (suc i) f (b ∷ bs) = b ∷ change_at i f bs

-- `(b & 0x0f) | 0x40` and `(b & 0x3f) | 0x80`, which have no bit in common.
abbrev pub mark_version : List ℕ → List ℕ
mark_version bytes = change_at 8 (λ b. b % 64 + 128) (change_at 6 (λ b. b % 16 + 64) bytes)

-- The loop, from the byte at `i` on.
unfoldable pub uuid_from : ℕ → List ℕ → Text
uuid_from i [] = []
uuid_from i (byte ∷ bytes) =
    let digits = hex_digit (byte / 16) ∷ hex_digit (byte % 16) ∷ uuid_from (i + 1) bytes in
    if i == 4 || i == 6 || i == 8 || i == 10 then b'-' ∷ digits else digits

-- On the 16 bytes that `fill_random` gives.
unfoldable pub generate_uuid_v4 : List ℕ → Text
unfolding uuid_from
generate_uuid_v4 bytes = uuid_from 0 (mark_version bytes)

-- On 32 bytes.
unfoldable pub generate_hex_secret : List ℕ → Text
unfolding hex_string
generate_hex_secret bytes = hex_string bytes

-- What is written to the file.
abbrev pub identity_text : HubIdentity → Text
identity_text i =
    ascii "HUB_DEVICE_ID="
    ++ (i.device_id ++ (b'\n' ∷ ascii "HUB_SECRET=" ++ (i.hub_secret ++ b'\n' ∷ [])))

-- Outside: the random bytes, and whether the file can be written (if not, the build panics).
pub record Machine : Type 0 where
  pub id_bytes : List ℕ
  pub secret_bytes : List ℕ
  pub writes : Bool

-- The file as it is (`none`: it cannot be read), and as it is left.
abbrev pub unless_parsed :
    Machine → Option HubIdentity → Option Text → Run HubIdentity × Option Text
unless_parsed m (some identity) file = (ok identity, file)
unless_parsed m none file =
    let identity : HubIdentity = record {
      device_id = generate_uuid_v4 m.id_bytes;
      hub_secret = generate_hex_secret m.secret_bytes;
    } in
    if m.writes then (ok identity, some (identity_text identity)) else (panic, file)

abbrev pub parsed : Option Text → Option HubIdentity
parsed none = none
parsed (some content) = parse_identity_file content

unfoldable pub generated_identity : Machine → Option Text → Run HubIdentity × Option Text
unfolding parse_identity_file generate_uuid_v4 generate_hex_secret
generated_identity m file = unless_parsed m (parsed file) file

abbrev pub unless_given : Machine → Option HubIdentity → Option Text → Run HubIdentity × Option Text
unless_given m (some identity) file = (ok identity, file)
unless_given m none file = generated_identity m file

-- The identity with which `main` builds the firmware.
unfoldable pub build_identity :
    Machine → Option Text → Option Text → Option Text → Run HubIdentity × Option Text
unfolding env_identity generated_identity
build_identity m device_id hub_secret file = unless_given m (env_identity device_id hub_secret) file
