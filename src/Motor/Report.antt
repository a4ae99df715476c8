-- ===== src/Motor/Report.antt =====
-- The motor result that a probe publishes: src/ble.rs, `ProbeMotorResult` and
-- `parse_motor_result_payload`, with the layout constants of src/config.rs.
pub mod Frame
use hub_core.Base.{
  ℕ, Bool, true, false, not, ◌&&◌, ◌||◌, List, [], ◌∷◌, Option, none, some, leb, ◌==◌,
  if◌then◌else◌, length, replicate,
}
use hub_core.Base.Text.{Text, ascii, text_eq}
use hub_core.Base.Result.{Run, Result, ok, panic, ◌>>=◌, slice, index, copy_from_slice}

abbrev pub magic : Text
magic = ascii "HHMR"

abbrev pub version : ℕ
version = 1

abbrev pub magic_offset : ℕ
magic_offset = 0

abbrev pub version_offset : ℕ
version_offset = 4

abbrev pub status_offset : ℕ
status_offset = 5

abbrev pub reason_offset : ℕ
reason_offset = 6

abbrev pub command_id_offset : ℕ
command_id_offset = 7

abbrev pub report_len : ℕ
report_len = 23

-- `status` and `reason_code` are bytes, `command_id` is 16 bytes.
pub record ProbeMotorResult : Type 0 where
  pub status : ℕ
  pub reason_code : ℕ
  pub command_id : List ℕ

unfoldable pub status_label : ProbeMotorResult → Text
status_label r =
    if r.status == 3
    then ascii "SENT_TO_PROBE"
    else if r.status == 4
    then ascii "EXECUTING"
    else if r.status == 5
    then ascii "SUCCEEDED"
    else if r.status == 6
    then ascii "FAILED"
    else if r.status == 7
    then ascii "EXPIRED"
    else ascii "UNKNOWN"

unfoldable pub reason_label : ProbeMotorResult → Text
reason_label r =
    if r.reason_code == 1
    then ascii "NONE"
    else if r.reason_code == 3
    then ascii "EXPIRED"
    else if r.reason_code == 7
    then ascii "UART_TIMEOUT"
    else if r.reason_code == 8
    then ascii "UART_REJECTED"
    else ascii "UNKNOWN"

unfoldable pub is_terminal : ProbeMotorResult → Bool
is_terminal r = leb 5 r.status && leb r.status 7

-- `command_id.iter().all(|byte| *byte == 0)`.
unfoldable pub all_zero : List ℕ → Bool
all_zero [] = true
all_zero (b ∷ bs) = b == 0 && all_zero bs

-- The function returns `Ok` on every path, so the model's value is the `Option` inside, or a panic.
unfoldable pub parse_motor_result_payload : List ℕ → Run (Option ProbeMotorResult)
unfolding all_zero text_eq
parse_motor_result_payload raw = if not (length raw == report_len) then ok none else do
  marker ← slice raw magic_offset version_offset
  if not (text_eq marker magic) then ok none else do
    version_byte ← index raw version_offset
    if not (version_byte == version) then ok none else do
      id ← slice raw command_id_offset report_len
      command_id ← copy_from_slice (replicate 16 0) 0 16 id
      if all_zero command_id then ok none else do
        status ← index raw status_offset
        reason ← index raw reason_offset
        ok (some (record { status = status; reason_code = reason; command_id = command_id }))
