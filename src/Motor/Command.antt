-- ===== src/Motor/Command.antt =====
-- The motor command frame: src/ble.rs, `build_motor_command_payload`, with the layout constants of
-- src/config.rs. An array is a list; a write outside it, or of another length, is a panic.
pub mod Frame
pub mod Decode
use hub_core.Base.{ℕ, ◌-◌, ◌/◌, ◌%◌, ◌^◌, not, ◌&&◌, List, [], ◌∷◌, ◌==◌, min, replicate}
use hub_core.Base.Int.{ℤ, pos, leb_ℤ, min_ℤ, max_ℤ, sub_i64, as_u32}
use hub_core.Base.Text.{Text, ascii}
use hub_core.Base.Result.{Result, ◌>>=◌, ◌>>◌, bail_if, map_err, store, copy_from_slice}
use hub_core.Uuid.{UuidError, parse_uuid_compact_bytes}

abbrev pub payload_magic : Text
payload_magic = ascii "HHMC"

abbrev pub payload_version : ℕ
payload_version = 1

abbrev pub action_stop : ℕ
action_stop = 0

abbrev pub action_run_for_duration : ℕ
action_run_for_duration = 1

abbrev pub magic_offset : ℕ
magic_offset = 0

abbrev pub version_offset : ℕ
version_offset = 4

abbrev pub action_offset : ℕ
action_offset = 5

abbrev pub command_id_offset : ℕ
command_id_offset = 6

abbrev pub duration_ms_offset : ℕ
duration_ms_offset = 22

abbrev pub expiry_ms_offset : ℕ
expiry_ms_offset = 26

abbrev pub payload_len : ℕ
payload_len = 30

abbrev pub max_duration_ms : ℕ
max_duration_ms = 5000

abbrev pub u32_max : ℕ
u32_max = 2 ^ 32 - 1

-- `u32::to_le_bytes`.
abbrev pub to_le_bytes : ℕ → List ℕ
to_le_bytes x = x % 256 ∷ x / 256 % 256 ∷ x / 65536 % 256 ∷ x / 16777216 % 256 ∷ []

pub data BuildError : Type 0 where
  unsupported_action : ℕ → BuildError
  invalid_command_id : UuidError → BuildError
  expired_before_encode : BuildError

-- `duration_ms.max(0) as u32`, then the clamp.
abbrev pub clamped_duration : ℤ → ℕ
clamped_duration duration_ms = min (as_u32 (max_ℤ duration_ms (pos 0))) max_duration_ms

-- `(expires_at_ms - now_unix_ms).min(u32::MAX as i64) as u32`.
abbrev pub remaining_expiry : ℤ → ℤ → ℕ
remaining_expiry expires_at_ms now = as_u32 (min_ℤ (sub_i64 expires_at_ms now) (pos u32_max))

-- The writes into the zeroed array, in the order of the source.
unfoldable pub write_payload : ℕ → List ℕ → ℕ → ℕ → Result BuildError (List ℕ)
write_payload action command_id duration expiry = do
  p0 ← copy_from_slice (replicate payload_len 0) magic_offset version_offset payload_magic
  p1 ← store p0 version_offset payload_version
  p2 ← store p1 action_offset action
  p3 ← copy_from_slice p2 command_id_offset duration_ms_offset command_id
  p4 ← copy_from_slice p3 duration_ms_offset expiry_ms_offset (to_le_bytes duration)
  copy_from_slice p4 expiry_ms_offset payload_len (to_le_bytes expiry)

-- `now` is the reading of the clock that the function takes.
unfoldable pub build_motor_command_payload : Text → ℕ → ℤ → ℤ → ℤ → Result BuildError (List ℕ)
build_motor_command_payload command_id action duration_ms expires_at_ms now = do
  bail_if (not (action == action_stop) && not (action == action_run_for_duration))
      (unsupported_action action)
  command_id_compact ← map_err invalid_command_id (parse_uuid_compact_bytes command_id)
  bail_if (leb_ℤ expires_at_ms now) expired_before_encode
  write_payload action command_id_compact (clamped_duration duration_ms)
      (remaining_expiry expires_at_ms now)
