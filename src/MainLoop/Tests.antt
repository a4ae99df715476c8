-- ===== src/MainLoop/Tests.antt =====
-- The theorems of MainLoop.Stale: a report is applied, and the probe serves it again.
use hub_core.Base.{◌≡◌, refl, true, some}
use hub_core.Base.Text.{text_eq}
use hub_core.Uuid.{expand_command_id}
use hub_core.Motor.Report.{is_terminal}
use hub_core.Poller.State.{Hub, dispatched}
use hub_core.Poller.Dispatch.{apply_probe_motor_result}
use hub_core.Poller.Tests.{session, probe, id, report, polled, expand_test}
use hub_core.Poller.Polling.{poll_once}
use hub_core.Dedup.{try_begin}
use hub_core.MainLoop.{handle_session}
use hub_core.MainLoop.Stale.{stale_report_hides_dispatch}

abbrev ended : Hub
ended = (apply_probe_motor_result session probe (report 5) polled).1

ended_test : ended.applied_probe_results id ≡ true
unfolding apply_probe_motor_result text_eq expand_command_id poll_once try_begin
ended_test = refl

stale_report_hides_dispatch_example :
    handle_session session probe (some dispatched) (some (report 5)) ended ≡ (tt, ended)
unfolding is_terminal
stale_report_hides_dispatch_example =
    stale_report_hides_dispatch session probe id (some dispatched) (report 5) ended expand_test
      ended_test refl
