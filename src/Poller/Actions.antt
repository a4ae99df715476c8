-- ===== src/Poller/Actions.antt =====
-- The steps that the methods of `CommandPoller` share (src/polling.rs): the clock, the dedup set,
-- and the acknowledgement of a command.
use hub_core.Base.{ℕ, ◌+◌, Bool, ◌&&◌, List, [], ◌∷◌, ◌++◌}
use hub_core.Base.Int.{ℤ, pos, leb_ℤ, ltb_ℤ}
use hub_core.Base.Text.{Text}
use hub_core.Dedup.{DedupBegin, try_begin, finish_processed}
use hub_core.Poller.State.{
  MotorCommandStatus, MotorCommandReasonCode, PendingMotorCommand, AckRequest, Session, M, ◌>>=◌,
  now_ms,
}

-- The state of the poller, written back field by field.
abbrev pub set_pending : List PendingMotorCommand → M (Unit {0})
set_pending cs s = (tt, record s { poller = record s.poller { pending = cs } })

abbrev pub push_pending : PendingMotorCommand → M (Unit {0})
push_pending c s = set_pending (s.pending ++ c ∷ []) s

abbrev pub take_pending : M (List PendingMotorCommand)
take_pending s = (s.pending, (set_pending [] s).1)

-- `command_is_expired` and `pending_command_is_expired`, from a reading of the clock.
abbrev pub is_expired_at : ℤ → ℤ → Bool
is_expired_at now expires_at = ltb_ℤ (pos 0) expires_at && leb_ℤ expires_at now

module _ (e : Session) where
  unfoldable pub unix_now_ms : M ℤ
  unix_now_ms s = (now_ms (e.clock s.readings), record s { readings = s.readings + 1 })

  -- `CommandDedupSet::try_begin` and `finish_processed`, which read the clock themselves.
  unfoldable pub begin_command : Text → M DedupBegin
  unfolding unix_now_ms
  begin_command command_id = do
    now ← unix_now_ms
    λ s.
        let (begun, d) = try_begin now command_id s.command_dedup in
        (begun, record s { poller = record s.poller { command_dedup = d } })

  unfoldable pub finish_command : Text → M (Unit {0})
  unfolding unix_now_ms
  finish_command command_id = do
    seen_at ← unix_now_ms
    now ← unix_now_ms
    λ s. (
      tt,
      record s {
        poller = record s.poller {
          command_dedup = finish_processed seen_at now command_id s.command_dedup;
        };
      },
    )

  -- `ack_once`: the call goes through if each of its steps does.
  abbrev pub ack_succeeds : ℕ → AckRequest → Bool
  ack_succeeds n r = e.runtime_builds n && (e.connects n e.jwt && e.ack_motor_command_event n r)

  unfoldable pub ack_best_effort :
      Text → Text → MotorCommandStatus → MotorCommandReasonCode → Text → M Bool
  ack_best_effort command_id node_id status reason_code reason_message s =
      let r : AckRequest = record {
        command_id = command_id;
        hub_id = e.hub_device_id;
        node_id = node_id;
        status = status;
        reason_code = reason_code;
        reason_message = reason_message;
      } in
      let sent = ack_succeeds s.calls r in
      (sent, record s { calls = s.calls + 1; acks = (r, sent) ∷ s.acks })
