-- ===== src/Ble/Dispatch.antt =====
-- src/ble.rs: `write_motor_payload_to_service` and `read_motor_result_from_service`.
use hub_core.Base.{ℕ, not, List, ◌∷◌, ◌++◌, Option, none, some, if◌then◌else◌}
use hub_core.Base.Int.{ℤ, leb_ℤ}
use hub_core.Base.Text.{Text, ascii}
use hub_core.Base.Result.{Run, Result, ok, err, panic}
use hub_core.Motor.Command.{BuildError, build_motor_command_payload}
use hub_core.Motor.Report.{ProbeMotorResult, parse_motor_result_payload}
use hub_core.Poller.State.{
  MotorDispatchRequest, DispatchResult, dispatched, dispatch_failed, expired_dispatch, write_failed,
}
use hub_core.Ble.Link.{Device, Link, read_clock}

abbrev failed_with : Text → Text → DispatchResult
failed_with what why = dispatch_failed (write_failed (what ++ why))

unfoldable pub write_frame : Device → List ℕ → Link → Run DispatchResult × Link
write_frame d payload s =
    if d.write_succeeds
    then (ok dispatched, record s { written = payload ∷ s.written })
    else (ok (failed_with (ascii "motor command write failed: ") d.error_text), s)

-- What follows the encoding: an error is told apart by the clock.
unfoldable pub after_encode :
    Device → ℤ → Result BuildError (List ℕ) → Link → Run DispatchResult × Link
unfolding write_frame
after_encode d expires_at_ms (ok payload) s = write_frame d payload s
after_encode d expires_at_ms (err e) s =
    let (now, s') = read_clock d s in
    (
      ok (
          if leb_ℤ expires_at_ms now
          then dispatch_failed expired_dispatch
          else failed_with (ascii "motor payload encode failed: ") (d.build_error_text e)),
      s',
    )
after_encode d expires_at_ms panic s = (panic, s)

unfoldable pub encode_and_write : Device → MotorDispatchRequest → Link → Run DispatchResult × Link
unfolding after_encode build_motor_command_payload
encode_and_write d r s =
    let (now, s') = read_clock d s in
    after_encode d r.expires_at_epoch_ms
      (build_motor_command_payload r.command_id r.action r.duration_ms r.expires_at_epoch_ms now) s'

unfoldable pub write_motor_payload_to_service :
    Device → MotorDispatchRequest → Link → Run DispatchResult × Link
unfolding encode_and_write
write_motor_payload_to_service d r s =
    if not d.has_motor_command
    then (ok (failed_with (ascii "motor command characteristic missing: ") d.error_text), s)
    else (let (now, s') = read_clock d s in
        if leb_ℤ r.expires_at_epoch_ms now
        then (ok (dispatch_failed expired_dispatch), s')
        else encode_and_write d r s')

pub data MotorReadError : Type 0 where
  motor_read_failed : MotorReadError

abbrev no_error : {E A : Type 0} → Run A → Result E A
no_error (ok a) = ok a
no_error (err x) = elim x [ ]
no_error panic = panic

unfoldable pub read_motor_result_from_service :
    Device → Result MotorReadError (Option ProbeMotorResult)
unfolding parse_motor_result_payload
read_motor_result_from_service d = elim d.motor_result [
  | none ↦ ok none
  | some value ↦ elim value [
    | none ↦ err motor_read_failed
    | some raw ↦ no_error (parse_motor_result_payload raw)
  ]
]
