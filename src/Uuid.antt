-- ===== src/Uuid.antt =====
-- Command identifiers: 16 bytes on the wire, a hyphenated UUID text towards the backend.
-- src/polling.rs (`expand_command_id`, `hex_digit`) and src/ble.rs (`nibble_to_hex`,
-- `command_id_label`, `parse_uuid_compact_bytes`).
pub mod Digits
pub mod Parse
pub mod Range
pub mod RoundTrip
pub mod Tests
use hub_core.Base.{
  ℕ, zero, suc, ◌+◌, ◌-◌, ◌*◌, ◌/◌, ◌%◌, Bool, ◌||◌, ◌&&◌, List, [], ◌∷◌, ◌++◌, Option, none, some,
  leb, ◌==◌, if◌then◌else◌, length, set, replicate,
}
use hub_core.Base.Text.{Text}
use hub_core.Base.Result.{Result, ok, err}

-- config.rs, MOTOR_COMMAND_PAYLOAD_COMMAND_ID_LEN.
abbrev pub command_id_len : ℕ
command_id_len = 16

unfoldable pub hex_digit : ℕ → ℕ
hex_digit n = if leb n 9 then b'0' + n else if leb 10 n && leb n 15 then b'a' + (n - 10) else b'0'

unfoldable pub nibble_to_hex : ℕ → ℕ
nibble_to_hex n =
    if leb n 9 then b'0' + n else if leb 10 n && leb n 15 then b'a' + (n - 10) else b'0'

abbrev is_group_start : ℕ → Bool
is_group_start i = i == 4 || i == 6 || i == 8 || i == 10

-- The loop of `expand_command_id` from the byte at `index` on: what it appends to `output`.
unfoldable pub expand_from : ℕ → List ℕ → Text
expand_from index [] = []
expand_from index (byte ∷ bytes) =
    let digits = hex_digit (byte / 16) ∷ hex_digit (byte % 16) ∷ expand_from (index + 1) bytes in
    if is_group_start index then b'-' ∷ digits else digits

-- The function returns `Some` on every path.
unfoldable pub expand_command_id : List ℕ → Option Text
unfolding expand_from hex_digit
expand_command_id command_id = some (expand_from 0 command_id)

label_from : ℕ → List ℕ → Text
label_from index [] = []
label_from index (byte ∷ bytes) =
    let digits =
      nibble_to_hex (byte / 16) ∷ nibble_to_hex (byte % 16) ∷ label_from (index + 1) bytes in
    if is_group_start index then b'-' ∷ digits else digits

unfoldable pub command_id_label : List ℕ → Text
unfolding label_from nibble_to_hex
command_id_label command_id = label_from 0 command_id

pub data UuidError : Type 0 where
  invalid_character : ℕ → UuidError
  too_long : UuidError
  wrong_length : UuidError

-- The match on `byte` in `parse_uuid_compact_bytes`.
pub hex_value : ℕ → Option ℕ
hex_value byte =
    if leb b'0' byte && leb byte b'9'
    then some (byte - b'0')
    else if leb b'a' byte && leb byte b'f'
    then some (byte - b'a' + 10)
    else if leb b'A' byte && leb byte b'F'
    then some (byte - b'A' + 10)
    else none

-- The loop, from the locals `nibble_index`, `high_nibble` and `output`; the test behind it is the
-- clause for the empty text. `(high << 4) | low` is a sum, since `low` is below 16.
pub parse_loop : Text → ℕ → ℕ → List ℕ → Result UuidError (List ℕ)
parse_loop [] nibble_index high output = if nibble_index == 32 then ok output else err wrong_length
parse_loop (byte ∷ bytes) nibble_index high output =
    let skip = parse_loop bytes nibble_index high output in
    let next = λ (nibble : ℕ).
      let keep = parse_loop bytes (nibble_index + 1) nibble output in
      let write =
        parse_loop bytes (nibble_index + 1) high
          (set output (nibble_index / 2) (high * 16 % 256 + nibble)) in
      if nibble_index % 2 == 0
      then keep
      else if leb (length output) (nibble_index / 2)
      then err too_long
      else write in
    if byte == b'-'
    then skip
    else elim (hex_value byte) [ none ↦ err (invalid_character byte) | some nibble ↦ next nibble ]

-- `parse_uuid_compact_bytes` on the zeroed array that its caller passes.
unfoldable pub parse_uuid_compact_bytes : Text → Result UuidError (List ℕ)
unfolding parse_loop hex_value
parse_uuid_compact_bytes raw_uuid = parse_loop raw_uuid 0 0 (replicate command_id_len 0)
