-- ===== src/Poller/Finished/Dispatch.antt =====
-- The other methods of `CommandPoller` (src/polling.rs), and any run of them, leave out a command that was
-- finished within the retention time.
use hub_core.Base.{
  ◌≡◌, ◌<◌, ◌^◌, refl, ℕ, ◌+◌, Bool, true, false, not, ◌||◌, List, [], ◌∷◌, ◌++◌, Option, none,
  some, arith, Bool-cases, inl, inr,
}
use hub_core.Base.Int.{pos}
use hub_core.Base.Text.{Text, text_eq}
use hub_core.Uuid.{expand_command_id}
use hub_core.Motor.Report.{ProbeMotorResult}
use hub_core.Dedup.{already_processed}
use hub_core.Poller.State.{
  Session, Hub, PendingMotorCommand, MotorCommandStatus, MotorCommandReasonCode, DispatchResult,
  dispatched, dispatch_failed, expired_dispatch, write_failed,
}
use hub_core.Poller.Actions.{begin_command, ack_best_effort, take_pending}
use hub_core.Poller.Dispatch.{
  after_sent, after_report_sent, apply_event, apply_known, apply_with_id, dispatch_pending_command,
  push_back, complete_loop, complete_dispatched_for_probe, apply_probe_motor_result, report_event,
}
use hub_core.Poller.Invariant.{count_id, count_id-append}
use hub_core.Poller.Reachable.{Step, poll, complete, apply, Steps, stay, then_step}
use hub_core.Poller.Finished.{Within, ClockWithin, Out}
use hub_core.Poller.Finished.Steps.{
  Without, not_first, Without-append, finish_command-Out, begin_finished, with_pending-Out, ack-Out,
}
use hub_core.Poller.Finished.Polling.{poll_once-Out}

module _ (e : Session) (id : Text) (from since : ℕ) (small : since + 300000 < 2 ^ 63)
    (clock : ClockWithin e from since) where
  abbrev Stays : Hub → Type 0
  Stays s = Out id from since s

  after_sent-Out :
      (c : PendingMotorCommand) (sent : Bool) (s : Hub) → Stays s → Stays (after_sent e c sent s).1
  unfolding after_sent
  after_sent-Out c true s v = finish_command-Out e id from since small clock c.command_id s v
  after_sent-Out c false s v = v

  dispatch-Out :
      (c : PendingMotorCommand) (r : DispatchResult) (s : Hub)
      → Stays s
      → Stays (dispatch_pending_command e c r s).1
  unfolding dispatch_pending_command
  dispatch-Out c dispatched s v =
      let t = ack_best_effort e c.command_id c.node_id _ _ _ s in
      after_sent-Out c t.0 t.1
        (ack-Out e id from since small clock c.command_id c.node_id _ _ _ s v)
  dispatch-Out c (dispatch_failed expired_dispatch) s v =
      finish_command-Out e id from since small clock c.command_id _
        (ack-Out e id from since small clock c.command_id c.node_id _ _ _ s v)
  dispatch-Out c (dispatch_failed (write_failed message)) s v = v

  -- What comes back is the command itself.
  dispatch-Without :
      (c : PendingMotorCommand) (r : DispatchResult) (kept : List PendingMotorCommand) (s : Hub)
      → text_eq id c.command_id ≡ false
      → Without id kept
      → Without id (push_back e kept (dispatch_pending_command e c r s).0)
  unfolding dispatch_pending_command
  dispatch-Without c r kept s other w = ground (arith, count_id-append id kept (c ∷ []))

  complete_loop-Out :
      (probe : Text) (r : DispatchResult) (kept : List PendingMotorCommand) (consumed : Bool)
      (cs : List PendingMotorCommand) (s : Hub)
      → Without id kept
      → Without id cs
      → Stays s
      → Without id (complete_loop e probe r kept consumed cs s).0
        × Stays (complete_loop e probe r kept consumed cs s).1
  unfolding complete_loop
  complete_loop-Out probe r kept consumed [] s w none_there v = (w, v)
  complete_loop-Out probe r kept consumed (c ∷ cs) s w none_there v =
      let (other, rest) = not_first id c cs none_there in
      let back : Option PendingMotorCommand × Hub = dispatch_pending_command e c r s in
      elim (Bool-cases (consumed || not (text_eq c.node_id probe))) [
        | inl pass ↦ rw pass (
            complete_loop-Out probe r (kept ++ c ∷ []) consumed cs s
              (Without-append id c kept other w) rest v)
        | inr hit ↦ rw hit (
            complete_loop-Out probe r (push_back e kept back.0) true cs back.1
              (dispatch-Without c r kept s other w) rest (dispatch-Out c r s v))
      ]

  complete-Out :
      (probe : Text) (r : DispatchResult) (s : Hub)
      → Stays s
      → Stays (complete_dispatched_for_probe e probe r s).1
  unfolding complete_dispatched_for_probe
  complete-Out probe r s v =
      let taken : Stays (take_pending s).1 =
        with_pending-Out e id from since small clock [] s refl v in
      let done = complete_loop e probe r [] false s.pending (take_pending s).1 in
      let (w, last) =
        complete_loop-Out probe r [] false s.pending (take_pending s).1 refl v.absent taken in
      with_pending-Out e id from since small clock done.0 done.1 w last

  after_report_sent-Out :
      (cid : Text) (sent : Bool) (s : Hub) → Stays s → Stays (after_report_sent e cid sent s).1
  unfolding after_report_sent
  after_report_sent-Out cid true s v =
      let w = finish_command-Out e id from since small clock cid s v in
      record {
        seen = w.seen;
        recorded = w.recorded;
        recent = w.recent;
        absent = w.absent;
        later = w.later;
      }
  after_report_sent-Out cid false s v = v

  apply_event-Out :
      (cid probe : Text) (event : Option (MotorCommandStatus × MotorCommandReasonCode × Text))
      (s : Hub)
      → Stays s
      → Stays (apply_event e cid probe event s).1
  unfolding apply_event
  apply_event-Out cid probe none s v = v
  apply_event-Out cid probe (some (status, why, message)) s v =
      let t = ack_best_effort e cid probe status why message s in
      after_report_sent-Out cid t.0 t.1
        (ack-Out e id from since small clock cid probe status why message s v)

  apply_known-Out :
      (known : Bool) (cid probe : Text) (r : ProbeMotorResult) (s : Hub)
      → Stays s
      → Stays (apply_known e known cid probe r s).1
  unfolding apply_known
  apply_known-Out true cid probe r s v = v
  apply_known-Out false cid probe r s v = apply_event-Out cid probe (report_event r) s v

  apply_with_id-Out :
      (known_id : Option Text) (probe : Text) (r : ProbeMotorResult) (s : Hub)
      → Stays s
      → Stays (apply_with_id e known_id probe r s).1
  unfolding apply_with_id
  apply_with_id-Out none probe r s v = v
  apply_with_id-Out (some cid) probe r s v =
      apply_known-Out (s.applied_probe_results cid) cid probe r s v

  Step-Out : (s t : Hub) → Step e s t → Stays s → Stays t
  unfolding apply_probe_motor_result
  Step-Out s t poll v = poll_once-Out e id from since small clock s v
  Step-Out s t (complete probe r) v = complete-Out probe r s v
  Step-Out s t (apply probe r) v = apply_with_id-Out (expand_command_id r.command_id) probe r s v

  pub Steps-Out : (s t : Hub) → Steps e s t → Stays s → Stays t
  Steps-Out s t stay v = v
  Steps-Out s t (then_step {t = mid} before step) v = Step-Out mid t step (Steps-Out s mid before v)

-- A command id that is on record as finished, and that no pending command has, stays out: as long as the clock
-- shows no time before `since`, which its record does not precede, and none more than 300 s behind it,
-- no later polls, dispatches and reports, whatever they bring, make a pending command of it again, and a
-- pull of it is still answered as a duplicate.
pub finished_stays_out :
    (e : Session) (id : Text) (since seen : ℕ) (s t : Hub)
    → since + 300000 < 2 ^ 63
    → ClockWithin e s.readings since
    → s.command_dedup.processed id ≡ some (pos seen)
    → Within since seen
    → count_id id s.pending ≡ 0
    → Steps e s t
    → (count_id id t.pending ≡ 0) × ((begin_command e id t).0 ≡ already_processed)
finished_stays_out e id since seen s t small clock recorded recent absent steps =
    let from : ℕ = s.readings in
    let first : Out id from since s = record {
      seen = seen;
      recorded = recorded;
      recent = recent;
      absent = absent;
      later = omega arith;
    } in
    let last = Steps-Out e id from since small clock s t steps first in
    (last.absent, begin_finished e id from since small clock t last)
