-- ===== src/MainLoop/Stale.antt =====
-- A session as steps of the poller, and a session in which the probe still serves an old report.
use hub_core.Base.{◌≡◌, Bool, true, false, Option, none, some, arith}
use hub_core.Base.Text.{Text}
use hub_core.Uuid.{expand_command_id}
use hub_core.Motor.Report.{ProbeMotorResult, is_terminal}
use hub_core.Poller.State.{Session, Hub, DispatchResult}
use hub_core.Poller.Reachable.{Steps, stay, then_step, apply, complete}
use hub_core.Poller.Reports.{applied_skips}
use hub_core.MainLoop.{apply_if, complete_unless, ends_command, handle_session}

module _ (e : Session) where
  apply_if-Steps :
      (probe : Text) (report : Option ProbeMotorResult) (s : Hub)
      → Steps e s (apply_if e probe report s).1
  unfolding apply_if
  apply_if-Steps probe none s = stay
  apply_if-Steps probe (some r) s = then_step stay (apply probe r)

  complete_unless-Steps :
      (ends : Bool) (probe : Text) (result : Option DispatchResult) (s t : Hub)
      → Steps e s t
      → Steps e s (complete_unless e ends probe result t).1
  unfolding complete_unless
  complete_unless-Steps true probe result s t reached = reached
  complete_unless-Steps false probe none s t reached = reached
  complete_unless-Steps false probe (some r) s t reached = then_step reached (complete probe r)

-- What the main loop does with the session of a probe is a run of the poller's own steps, so that
-- whatever holds of every run of the poller holds across it.
pub handle_session-Steps :
    (e : Session) (probe : Text) (result : Option DispatchResult) (report : Option ProbeMotorResult)
    (s : Hub)
    → Steps e s (handle_session e probe result report s).1
unfolding handle_session
handle_session-Steps e probe result report s =
    complete_unless-Steps e (ends_command report) probe result s (apply_if e probe report s).1
      (apply_if-Steps e probe report s)

-- Where a probe still serves a report that the hub has applied and that says that its command ended, a
-- session changes nothing, not even if the hub has just written another command to the probe: that
-- command is neither acknowledged nor taken off the pending ones.
pub stale_report_hides_dispatch :
    (e : Session) (probe cid : Text) (result : Option DispatchResult) (report : ProbeMotorResult)
    (s : Hub)
    → expand_command_id report.command_id ≡ some cid
    → s.applied_probe_results cid ≡ true
    → is_terminal report ≡ true
    → handle_session e probe result (some report) s ≡ (tt, s)
unfolding handle_session apply_if complete_unless expand_command_id
stale_report_hides_dispatch e probe cid result report s known applied ends =
    ground (arith, applied_skips e probe report s)
