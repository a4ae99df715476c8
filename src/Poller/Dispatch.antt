-- ===== src/Poller/Dispatch.antt =====
-- src/polling.rs: a command handed to its probe, what comes of it, and the report that the probe
-- publishes later.
use mathlib.Core.Option
use hub_core.Base.{
  Bool, true, false, not, ◌||◌, List, [], ◌∷◌, ◌++◌, Option, none, some, ◌==◌, if◌then◌else◌,
}
use hub_core.Base.Text.{Text, ascii, text_eq}
use hub_core.Base.Maps.{insert}
use hub_core.Motor.Report.{ProbeMotorResult}
use hub_core.Uuid.{expand_command_id}
use hub_core.Poller.State.{
  Session, MotorCommandStatus, sent_to_probe, executing, succeeded, failed, expired,
  MotorCommandReasonCode, no_reason, expired_reason, ble_write_failed, uart_timeout, uart_rejected,
  MotorDispatchRequest, PendingMotorCommand, expired_dispatch, write_failed, DispatchResult,
  dispatched, dispatch_failed, CommandPoller, Session, M, pure, ◌>>=◌, ◌>>◌,
}
use hub_core.Poller.Actions.{set_pending, take_pending, finish_command, ack_best_effort}

-- The status, the reason and the message that `apply_probe_motor_result` sends for a report.
unfoldable pub report_event :
    ProbeMotorResult → Option (MotorCommandStatus × MotorCommandReasonCode × Text)
report_event r =
    if r.status == 4
    then some (executing, no_reason, ascii "probe started executing motor command")
    else if r.status == 5
    then some (succeeded, no_reason, ascii "probe completed motor command successfully")
    else if r.status == 6
    then some (
      failed,
      if r.reason_code == 7
          then uart_timeout
          else if r.reason_code == 8
          then uart_rejected
          else ble_write_failed,
      ascii "probe reported motor command failure",
    )
    else if r.status == 7
    then some (expired, expired_reason, ascii "probe reported command expired before execution")
    else none

module _ (e : Session) where
  -- The two ends of a dispatch that the probe took: acknowledged, or kept for a retry.
  unfoldable pub after_sent : PendingMotorCommand → Bool → M (Option PendingMotorCommand)
  unfolding finish_command
  after_sent command true = finish_command e command.command_id >> pure none
  after_sent command false = pure (some command)

  -- The command that comes back stays pending.
  unfoldable pub dispatch_pending_command :
      PendingMotorCommand → DispatchResult → M (Option PendingMotorCommand)
  unfolding ack_best_effort finish_command after_sent
  dispatch_pending_command command dispatched = do
    ack_sent ←
        ack_best_effort e command.command_id command.node_id sent_to_probe no_reason
          (ascii "motor command write acknowledged by probe")
    after_sent command ack_sent
  dispatch_pending_command command (dispatch_failed expired_dispatch) = do
    ack_best_effort e command.command_id command.node_id expired expired_reason
        (ascii "command expired before BLE write")
    finish_command e command.command_id
    pure none
  dispatch_pending_command command (dispatch_failed (write_failed message)) = pure (some command)

  abbrev pub push_back :
      List PendingMotorCommand → Option PendingMotorCommand → List PendingMotorCommand
  push_back remaining none = remaining
  push_back remaining (some command) = remaining ++ command ∷ []

  -- The loop of `complete_dispatched_for_probe`, with its locals `remaining` and `consumed`.
  unfoldable pub complete_loop :
      Text
      → DispatchResult
      → List PendingMotorCommand
      → Bool
      → List PendingMotorCommand
      → M (List PendingMotorCommand)
  complete_loop probe_uuid result remaining consumed [] = pure remaining
  complete_loop probe_uuid result remaining consumed (command ∷ rest) =
      let pass = complete_loop probe_uuid result (remaining ++ command ∷ []) consumed rest in
      if consumed || not (text_eq command.node_id probe_uuid) then pass else (do
        back ← dispatch_pending_command command result
        complete_loop probe_uuid result (push_back remaining back) true rest)

  unfoldable pub complete_dispatched_for_probe : Text → DispatchResult → M (Unit {0})
  unfolding complete_loop dispatch_pending_command
  complete_dispatched_for_probe probe_uuid result = do
    pending ← take_pending
    remaining ← complete_loop probe_uuid result [] false pending
    set_pending remaining

  abbrev pub insert_applied : Text → M (Unit {0})
  insert_applied command_id s = (
    tt,
    record s {
      poller = record s.poller {
        applied_probe_results = insert s.applied_probe_results command_id;
      };
    },
  )

  unfoldable pub after_report_sent : Text → Bool → M (Unit {0})
  unfolding finish_command
  after_report_sent command_id true = finish_command e command_id >> insert_applied command_id
  after_report_sent command_id false = pure tt

  -- The match on the status of the report; `none` is its early return.
  unfoldable pub apply_event :
      Text → Text → Option (MotorCommandStatus × MotorCommandReasonCode × Text) → M (Unit {0})
  unfolding ack_best_effort after_report_sent
  apply_event command_id probe_uuid none = pure tt
  apply_event command_id probe_uuid (some (status, reason_code, message)) = do
    ack_sent ← ack_best_effort e command_id probe_uuid status reason_code message
    after_report_sent command_id ack_sent

  unfoldable pub apply_known : Bool → Text → Text → ProbeMotorResult → M (Unit {0})
  unfolding apply_event report_event
  apply_known true command_id probe_uuid result = pure tt
  apply_known false command_id probe_uuid result =
      apply_event command_id probe_uuid (report_event result)

  unfoldable pub apply_with_id : Option Text → Text → ProbeMotorResult → M (Unit {0})
  unfolding apply_known
  apply_with_id none probe_uuid result s = (tt, s)
  apply_with_id (some command_id) probe_uuid result s =
      apply_known (s.applied_probe_results command_id) command_id probe_uuid result s

  unfoldable pub apply_probe_motor_result : Text → ProbeMotorResult → M (Unit {0})
  unfolding apply_with_id
  apply_probe_motor_result probe_uuid result =
      apply_with_id (expand_command_id result.command_id) probe_uuid result

-- `self.pending.iter().find(…).map(…)`.
unfoldable pub find_for_probe : Text → List PendingMotorCommand → Option PendingMotorCommand
find_for_probe probe_uuid [] = none
find_for_probe probe_uuid (command ∷ rest) =
    if text_eq command.node_id probe_uuid then some command else find_for_probe probe_uuid rest

abbrev pub request_of : PendingMotorCommand → MotorDispatchRequest
request_of c = record {
  command_id = c.command_id;
  action = c.action;
  duration_ms = c.duration_ms;
  expires_at_epoch_ms = c.expires_at_epoch_ms;
}

unfoldable pub peek_pending_for_probe_uuid : Text → CommandPoller → Option MotorDispatchRequest
unfolding find_for_probe
peek_pending_for_probe_uuid probe_uuid p =
    Option.map request_of (find_for_probe probe_uuid p.pending)
