-- ===== src/MainLoop.antt =====
-- src/main.rs, one candidate of the loop of `main`: what the poller is told once a probe was read.
pub mod Stale
pub mod Cycle
pub mod Start
pub mod Tests
use hub_core.Base.{Bool, true, false, Option, none, some}
use hub_core.Base.Text.{Text}
use hub_core.Motor.Report.{ProbeMotorResult, is_terminal}
use hub_core.Poller.State.{Session, DispatchResult, M, pure, ◌>>◌}
use hub_core.Poller.Dispatch.{complete_dispatched_for_probe, apply_probe_motor_result}

-- `last_motor_result.map(|r| r.is_terminal()).unwrap_or(false)`.
abbrev pub ends_command : Option ProbeMotorResult → Bool
ends_command none = false
ends_command (some r) = is_terminal r

module _ (e : Session) where
  unfoldable pub apply_if : Text → Option ProbeMotorResult → M (Unit {0})
  unfolding apply_probe_motor_result
  apply_if probe_uuid none = pure tt
  apply_if probe_uuid (some report) = apply_probe_motor_result e probe_uuid report

  unfoldable pub complete_unless : Bool → Text → Option DispatchResult → M (Unit {0})
  unfolding complete_dispatched_for_probe
  complete_unless true probe_uuid result = pure tt
  complete_unless false probe_uuid none = pure tt
  complete_unless false probe_uuid (some result) = complete_dispatched_for_probe e probe_uuid result

  -- The session's `motor_dispatch_result` and `last_motor_result`.
  unfoldable pub handle_session :
      Text → Option DispatchResult → Option ProbeMotorResult → M (Unit {0})
  unfolding apply_if complete_unless
  handle_session probe_uuid dispatch_result last_motor_result =
      apply_if probe_uuid last_motor_result
      >> complete_unless (ends_command last_motor_result) probe_uuid dispatch_result
