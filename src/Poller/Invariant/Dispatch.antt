-- ===== src/Poller/Invariant/Dispatch.antt =====
-- Handing a command to its probe, and applying a report, keep the invariant.
use hub_core.Base.{
  ◌∙◌, ℕ, ◌+◌, ◌≡◌, Bool, true, false, not, ◌||◌, List, [], ◌∷◌, ◌++◌, Option, none, some, refl, ap,
  ◌∙◌, arith, Bool-cases, inl, inr,
}
use hub_core.Base.Text.{Text, ascii, text_eq, text_eq_iff}
use hub_core.Dedup.{finish_processed}
use hub_core.Uuid.{expand_from, expand_command_id}
use hub_core.Motor.Report.{ProbeMotorResult}
use hub_core.Poller.State.{
  Session, PendingMotorCommand, Hub, MotorCommandStatus, MotorCommandReasonCode, DispatchResult,
  dispatched, dispatch_failed, expired_dispatch, write_failed, sent_to_probe, no_reason, expired,
  expired_reason,
}
use hub_core.Poller.Actions.{finish_command, ack_best_effort, take_pending}
use hub_core.Poller.Dispatch.{
  apply_known, after_sent, after_report_sent, apply_with_id, dispatch_pending_command, push_back,
  complete_loop, complete_dispatched_for_probe, apply_event, apply_known, insert_applied,
  apply_probe_motor_result, report_event,
}
use hub_core.Poller.Invariant.{InvWith, Inv-ext, one_more, count_id, count_id-append}
use hub_core.Poller.Invariant.Steps.{
  finish_command-InvWith, ack_and_finish-InvWith, take_pending-InvWith,
}

-- What the loop holds once the command came back or not.
abbrev held_back : Option PendingMotorCommand → (Text → ℕ) → Text → ℕ
held_back none extra = extra
held_back (some c) extra = one_more c.command_id extra

held_back-add :
    (id : Text) (back : Option PendingMotorCommand) (kept : List PendingMotorCommand)
    (extra : Text → ℕ)
    → held_back back (λ j. count_id j kept + extra j) id
      ≡ count_id id kept + held_back back extra id
held_back-add id none kept extra = refl
held_back-add id (some c) kept extra = omega arith

module _ (e : Session) where
  after_sent-InvWith :
      (c : PendingMotorCommand) (sent : Bool) (extra : Text → ℕ) (s : Hub)
      → InvWith (one_more c.command_id extra) s
      → InvWith (held_back (after_sent e c sent s).0 extra) (after_sent e c sent s).1
  unfolding after_sent
  after_sent-InvWith c true extra s v = finish_command-InvWith e c.command_id extra s v
  after_sent-InvWith c false extra s v = v

  dispatch_pending_command-InvWith :
      (c : PendingMotorCommand) (r : DispatchResult) (extra : Text → ℕ) (s : Hub)
      → InvWith (one_more c.command_id extra) s
      → InvWith
          (held_back (dispatch_pending_command e c r s).0 extra)
          (dispatch_pending_command e c r s).1
  unfolding dispatch_pending_command
  dispatch_pending_command-InvWith c dispatched extra s v =
      let answer : Bool × Hub =
        ack_best_effort e c.command_id c.node_id sent_to_probe no_reason
          (ascii "motor command write acknowledged by probe") s in
      after_sent-InvWith c answer.0 extra answer.1 v
  dispatch_pending_command-InvWith c (dispatch_failed expired_dispatch) extra s v =
      ack_and_finish-InvWith e c.command_id c.node_id expired expired_reason
        (ascii "command expired before BLE write") extra s v
  dispatch_pending_command-InvWith c (dispatch_failed (write_failed message)) extra s v = v

  dispatch_pending_command-pending :
      (c : PendingMotorCommand) (r : DispatchResult) (s : Hub)
      → (dispatch_pending_command e c r s).1.pending ≡ s.pending
  unfolding dispatch_pending_command
  dispatch_pending_command-pending c r s = ground arith

  pub complete_loop-pending :
      (probe : Text) (r : DispatchResult) (kept : List PendingMotorCommand) (consumed : Bool)
      (cs : List PendingMotorCommand) (s : Hub)
      → (complete_loop e probe r kept consumed cs s).1.pending ≡ s.pending
  unfolding complete_loop
  complete_loop-pending probe r kept consumed [] s = refl
  complete_loop-pending probe r kept consumed (c ∷ cs) s =
      let back : Option PendingMotorCommand × Hub = dispatch_pending_command e c r s in
      elim (Bool-cases (consumed || not (text_eq c.node_id probe))) [
        | inl pass ↦ rw pass (complete_loop-pending probe r (kept ++ c ∷ []) consumed cs s)
        | inr hit ↦ rw hit (
            complete_loop-pending probe r (push_back e kept back.0) true cs back.1
            ∙ dispatch_pending_command-pending c r s)
      ]

  count-push_back :
      (id : Text) (kept : List PendingMotorCommand) (back : Option PendingMotorCommand)
      (extra : Text → ℕ)
      → count_id id (push_back e kept back) + extra id ≡ count_id id kept + held_back back extra id
  count-push_back id kept none extra = refl
  count-push_back id kept (some c) extra = omega (arith, count_id-append id kept (c ∷ []))

  complete_loop-InvWith :
      (probe : Text) (r : DispatchResult) (kept : List PendingMotorCommand) (consumed : Bool)
      (cs : List PendingMotorCommand) (extra : Text → ℕ) (s : Hub)
      → InvWith (λ id. count_id id kept + (count_id id cs + extra id)) s
      → InvWith
          (λ id. count_id id (complete_loop e probe r kept consumed cs s).0 + extra id)
          (complete_loop e probe r kept consumed cs s).1
  unfolding complete_loop
  complete_loop-InvWith probe r kept consumed [] extra s v =
      Inv-ext (λ id. count_id id s.pending + (count_id id kept + (0 + extra id)))
        (λ id. count_id id s.pending + (count_id id kept + extra id)) (λ id. omega arith) v
  complete_loop-InvWith probe r kept consumed (c ∷ cs) extra s v =
      let more : Text → ℕ = λ id. count_id id kept + (count_id id cs + extra id) in
      let back : Option PendingMotorCommand × Hub = dispatch_pending_command e c r s in
      elim (Bool-cases (consumed || not (text_eq c.node_id probe))) [
        | inl pass ↦ rw pass (
            complete_loop-InvWith probe r (kept ++ c ∷ []) consumed cs extra s (
              Inv-ext
                (λ id.
                  count_id id s.pending + (count_id id kept + (count_id id (c ∷ cs) + extra id)))
                (λ id.
                  count_id id s.pending
                  + (count_id id (kept ++ c ∷ []) + (count_id id cs + extra id)))
                (λ id. omega (arith, count_id-append id kept (c ∷ []))) v))
        | inr hit ↦ rw hit (
            complete_loop-InvWith probe r (push_back e kept back.0) true cs extra back.1 (
              Inv-ext (λ id. count_id id back.1.pending + held_back back.0 more id)
                (λ id.
                  count_id id back.1.pending
                  + (count_id id (push_back e kept back.0) + (count_id id cs + extra id)))
                (λ id. omega (
                  arith,
                  count-push_back id kept back.0 (λ j. count_id j cs + extra j),
                  held_back-add id back.0 kept (λ j. count_id j cs + extra j),
                ))
                (dispatch_pending_command-InvWith c r more s (
                  Inv-ext
                    (λ id.
                      count_id id s.pending
                      + (count_id id kept + (count_id id (c ∷ cs) + extra id)))
                    (λ id. count_id id s.pending + one_more c.command_id more id)
                    (λ id. omega arith) v))))
      ]

  pub complete_dispatched_for_probe-InvWith :
      (probe : Text) (r : DispatchResult) (extra : Text → ℕ) (s : Hub)
      → InvWith extra s
      → InvWith extra (complete_dispatched_for_probe e probe r s).1
  unfolding complete_dispatched_for_probe
  complete_dispatched_for_probe-InvWith probe r extra s v =
      let s0 : Hub = (take_pending s).1 in
      let after : List PendingMotorCommand × Hub = complete_loop e probe r [] false s.pending s0 in
      let empty : after.1.pending ≡ [] = complete_loop-pending probe r [] false s.pending s0 in
      let w : InvWith (λ id. count_id id after.0 + extra id) after.1 =
        complete_loop-InvWith probe r [] false s.pending extra s0 (
          Inv-ext (λ id. 0 + (count_id id s.pending + extra id))
            (λ id. 0 + (0 + (count_id id s.pending + extra id))) (λ id. omega arith)
            (take_pending-InvWith e extra s v)) in
      record {
        no_leak = λ id h. omega (arith, w.no_leak id h, ap (count_id id) empty);
        once = λ id h. omega (arith, w.once id h, ap (count_id id) empty);
        apart = w.apart;
      }

  -- A report was applied for the id: from now on `once` asks nothing of it.
  finish_applied-InvWith :
      (cid : Text) (extra : Text → ℕ) (s : Hub)
      → InvWith extra s
      → InvWith extra (insert_applied e cid (finish_command e cid s).1).1
  unfolding finish_command finish_processed
  finish_applied-InvWith cid extra s v = record {
    no_leak = λ id h. ground (arith, v.no_leak id, text_eq_iff id cid);
    once = λ id h. ground (arith, v.once id, text_eq_iff id cid);
    apart = λ id h. ground (arith, v.apart id, text_eq_iff id cid);
  }

  after_report_sent-InvWith :
      (cid : Text) (sent : Bool) (extra : Text → ℕ) (s : Hub)
      → InvWith extra s
      → InvWith extra (after_report_sent e cid sent s).1
  unfolding after_report_sent
  after_report_sent-InvWith cid true extra s v = finish_applied-InvWith cid extra s v
  after_report_sent-InvWith cid false extra s v = v

  apply_event-InvWith :
      (cid probe : Text) (event : Option (MotorCommandStatus × MotorCommandReasonCode × Text))
      (extra : Text → ℕ) (s : Hub)
      → InvWith extra s
      → InvWith extra (apply_event e cid probe event s).1
  unfolding apply_event
  apply_event-InvWith cid probe none extra s v = v
  apply_event-InvWith cid probe (some (status, why, message)) extra s v =
      let answer : Bool × Hub = ack_best_effort e cid probe status why message s in
      after_report_sent-InvWith cid answer.0 extra answer.1 v

  apply_known-InvWith :
      (known : Bool) (cid probe : Text) (r : ProbeMotorResult) (extra : Text → ℕ) (s : Hub)
      → InvWith extra s
      → InvWith extra (apply_known e known cid probe r s).1
  unfolding apply_known
  apply_known-InvWith true cid probe r extra s v = v
  apply_known-InvWith false cid probe r extra s v =
      apply_event-InvWith cid probe (report_event r) extra s v

  pub apply_probe_motor_result-InvWith :
      (probe : Text) (r : ProbeMotorResult) (extra : Text → ℕ) (s : Hub)
      → InvWith extra s
      → InvWith extra (apply_probe_motor_result e probe r s).1
  unfolding apply_probe_motor_result apply_with_id expand_command_id
  apply_probe_motor_result-InvWith probe r extra s v =
      let cid : Text = expand_from 0 r.command_id in
      apply_known-InvWith (s.applied_probe_results cid) cid probe r extra s v
