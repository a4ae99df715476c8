-- ===== src/Ble/NoExpiry.antt =====
-- A command without an expiry: src/polling.rs against src/ble.rs.
use hub_core.Base.{◌≡◌, true, false, arith}
use hub_core.Base.Int.{ℤ, pos, ◌≤ℤ◌}
use hub_core.Base.Result.{ok}
use hub_core.Probe.Readings.{get_unix_now_ms}
use hub_core.Poller.State.{MotorDispatchRequest, dispatch_failed, expired_dispatch}
use hub_core.Poller.Actions.{is_expired_at}
use hub_core.Ble.Link.{Device, Link}
use hub_core.Ble.Dispatch.{write_motor_payload_to_service}

-- A command whose expiry is 0 or less never expires for the poller, which keeps it pending at every time;
-- but a probe that has the motor characteristic is never written it, since the write path calls it expired
-- at every reading of a clock past 1970.
pub no_expiry_never_written :
    (d : Device) (r : MotorDispatchRequest) (s : Link) (now : ℤ)
    → r.expires_at_epoch_ms ≤ℤ pos 0
    → d.has_motor_command ≡ true
    → pos 0 ≤ℤ get_unix_now_ms (d.clock s.readings)
    → (is_expired_at now r.expires_at_epoch_ms ≡ false)
      × ((write_motor_payload_to_service d r s).0 ≡ ok (dispatch_failed expired_dispatch))
      × ((write_motor_payload_to_service d r s).1.written ≡ s.written)
unfolding write_motor_payload_to_service
no_expiry_never_written d r s now none there past = (ground arith, ground arith, ground arith)
