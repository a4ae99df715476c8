-- ===== src/Poller/Calls.antt =====
-- The remote calls of the methods of `CommandPoller`, in their order: src/polling.rs.
use hub_core.Base.{
  ℕ, ◌+◌, not, ◌||◌, List, [], ◌∷◌, ◌++◌, Option, none, some, Bool, true, false, Bool-cases, inl,
  inr,
}
use hub_core.Base.Text.{Text, text_eq}
use hub_core.Base.Int.{pos, ltb_ℤ}
use hub_core.Uuid.{expand_command_id}
use hub_core.Motor.Report.{ProbeMotorResult}
use hub_core.Dedup.{DedupBegin, new, already_processing, already_processed}
use hub_core.Poller.State.{
  Session, Hub, AckRequest, MotorCommand, PendingMotorCommand, MotorCommandStatus,
  MotorCommandReasonCode, DispatchResult, dispatched, dispatch_failed, expired_dispatch,
  write_failed,
}
use hub_core.Poller.Actions.{
  unix_now_ms, begin_command, finish_command, ack_best_effort, ack_succeeds, is_expired_at,
  take_pending,
}
use hub_core.Poller.Polling.{
  ParsedCommandAction, run_for, stop_now, unknown, refuse, store_action, expire, expire_one,
  expire_loop, expire_pending_commands, parse_command_action, store_parsed, store_new, store_begun,
  store_polled_command, store_all, store_pulled, pull_commands_once, poll_once,
}
use hub_core.Poller.Dispatch.{
  after_sent, after_report_sent, apply_event, apply_known, apply_with_id, dispatch_pending_command,
  push_back, complete_loop, complete_dispatched_for_probe, apply_probe_motor_result, report_event,
}
use hub_core.Poller.Reachable.{Step, poll, complete, apply, Reachable, boot, next}

abbrev pub Acks : Type 0
Acks = List (AckRequest × Bool)

-- From so many calls and these acknowledgements on: the calls that follow, each an acknowledgement or a
-- pull.
pub data Called (e : Session) (k : ℕ) (l : Acks) : ℕ → Acks → Type 0 where
  no_call : Called e k l k l
  try_ack :
      {n : ℕ} {m : Acks}
      → Called e k l n m
      → (r : AckRequest) → Called e k l (n + 1) ((r, ack_succeeds e n r) ∷ m)
  try_pull : {n : ℕ} {m : Acks} → Called e k l n m → Called e k l (n + 1) m

module _ (e : Session) where
  abbrev pub CalledIn : Hub → Hub → Type 0
  CalledIn s t = Called e s.calls s.acks t.calls t.acks

  Called-append :
      (k n : ℕ) (l m : Acks)
      → Called e k l n m
      → (o : ℕ) (p : Acks) → Called e n m o p
      → Called e k l o p
  Called-append k n l m first o p no_call = first
  Called-append k n l m first o p (try_ack {n = q} {m = x} rest r) =
      try_ack (Called-append k n l m first q x rest) r
  Called-append k n l m first o p (try_pull {n = q} {m = x} rest) =
      try_pull (Called-append k n l m first q x rest)

  both : (s t u : Hub) → CalledIn s t → CalledIn t u → CalledIn s u
  both s t u first = Called-append s.calls t.calls s.acks t.acks first u.calls u.acks

  one_ack :
      (r : AckRequest) (s : Hub)
      → Called e s.calls s.acks (s.calls + 1) ((r, ack_succeeds e s.calls r) ∷ s.acks)
  one_ack r s = try_ack no_call r

  expire_one-CalledIn : (c : PendingMotorCommand) (s : Hub) → CalledIn s (expire_one e c s).1
  unfolding expire_one unix_now_ms expire ack_best_effort finish_command
  expire_one-CalledIn c s =
      elim (Bool-cases (is_expired_at (unix_now_ms e s).0 c.expires_at_epoch_ms)) [
        | inl late ↦ rw late (one_ack _ s)
        | inr live ↦ rw live no_call
      ]

  expire_loop-CalledIn :
      (cs : List PendingMotorCommand) (s : Hub) → CalledIn s (expire_loop e cs s).1
  unfolding expire_loop
  expire_loop-CalledIn [] s = no_call
  expire_loop-CalledIn (c ∷ cs) s =
      let t : Hub = (expire_one e c s).1 in
      both s t (expire_loop e cs t).1 (expire_one-CalledIn c s) (expire_loop-CalledIn cs t)

  store_parsed-CalledIn :
      (c : MotorCommand) (a : ParsedCommandAction) (s : Hub) → CalledIn s (store_parsed e c a s).1
  unfolding store_parsed refuse store_action ack_best_effort finish_command
  store_parsed-CalledIn c (run_for d) s = elim (Bool-cases (ltb_ℤ d (pos 0))) [
    | inl negative ↦ rw negative (one_ack _ s)
    | inr fits ↦ rw fits no_call
  ]
  store_parsed-CalledIn c stop_now s = no_call
  store_parsed-CalledIn c (unknown raw) s = one_ack _ s

  store_new-CalledIn : (c : MotorCommand) (s : Hub) → CalledIn s (store_new e c s).1
  unfolding store_new unix_now_ms refuse ack_best_effort finish_command
  store_new-CalledIn c s = elim (Bool-cases (is_expired_at (unix_now_ms e s).0 c.expires_at)) [
    | inl late ↦ rw late (one_ack _ s)
    | inr live ↦ rw live (
        store_parsed-CalledIn c (parse_command_action e c) (record s { readings = s.readings + 1 }))
  ]

  store_begun-CalledIn :
      (c : MotorCommand) (b : DedupBegin) (s : Hub) → CalledIn s (store_begun e c b s).1
  unfolding store_begun
  store_begun-CalledIn c new s = store_new-CalledIn c s
  store_begun-CalledIn c already_processing s = no_call
  store_begun-CalledIn c already_processed s = no_call

  store_polled_command-CalledIn :
      (c : MotorCommand) (s : Hub) → CalledIn s (store_polled_command e c s).1
  unfolding store_polled_command begin_command unix_now_ms
  store_polled_command-CalledIn c s =
      let begun = begin_command e c.command_id s in store_begun-CalledIn c begun.0 begun.1

  store_all-CalledIn : (cs : List MotorCommand) (s : Hub) → CalledIn s (store_all e cs s).1
  unfolding store_all
  store_all-CalledIn [] s = no_call
  store_all-CalledIn (c ∷ cs) s =
      let t : Hub = (store_polled_command e c s).1 in
      both s t (store_all e cs t).1 (store_polled_command-CalledIn c s) (store_all-CalledIn cs t)

  store_pulled-CalledIn :
      (pulled : Option (List MotorCommand)) (s : Hub) → CalledIn s (store_pulled e pulled s).1
  unfolding store_pulled
  store_pulled-CalledIn none s = no_call
  store_pulled-CalledIn (some cs) s = store_all-CalledIn cs s

  pull-CalledIn : (s : Hub) → CalledIn s (pull_commands_once e s).1
  unfolding pull_commands_once
  pull-CalledIn s = try_pull no_call

  poll_once-CalledIn : (s : Hub) → CalledIn s (poll_once e s).1
  unfolding poll_once expire_pending_commands
  poll_once-CalledIn s =
      let t : Hub = (expire_loop e s.pending (take_pending s).1).1 in
      let pulled = pull_commands_once e t in
      both s pulled.1 (poll_once e s).1
        (both s t pulled.1 (expire_loop-CalledIn s.pending (take_pending s).1) (pull-CalledIn t))
        (store_pulled-CalledIn pulled.0 pulled.1)

  after_sent-CalledIn :
      (c : PendingMotorCommand) (sent : Bool) (s : Hub) → CalledIn s (after_sent e c sent s).1
  unfolding after_sent finish_command
  after_sent-CalledIn c true s = no_call
  after_sent-CalledIn c false s = no_call

  dispatch-CalledIn :
      (c : PendingMotorCommand) (r : DispatchResult) (s : Hub)
      → CalledIn s (dispatch_pending_command e c r s).1
  unfolding dispatch_pending_command ack_best_effort finish_command
  dispatch-CalledIn c dispatched s =
      let t = ack_best_effort e c.command_id c.node_id _ _ _ s in
      both s t.1 (after_sent e c t.0 t.1).1 (one_ack _ s) (after_sent-CalledIn c t.0 t.1)
  dispatch-CalledIn c (dispatch_failed expired_dispatch) s = one_ack _ s
  dispatch-CalledIn c (dispatch_failed (write_failed message)) s = no_call

  complete_loop-CalledIn :
      (probe : Text) (r : DispatchResult) (kept : List PendingMotorCommand) (consumed : Bool)
      (cs : List PendingMotorCommand) (s : Hub)
      → CalledIn s (complete_loop e probe r kept consumed cs s).1
  unfolding complete_loop
  complete_loop-CalledIn probe r kept consumed [] s = no_call
  complete_loop-CalledIn probe r kept consumed (c ∷ cs) s =
      let back : Option PendingMotorCommand × Hub = dispatch_pending_command e c r s in
      elim (Bool-cases (consumed || not (text_eq c.node_id probe))) [
        | inl pass ↦ rw pass (complete_loop-CalledIn probe r (kept ++ c ∷ []) consumed cs s)
        | inr hit ↦ rw hit (
            both s back.1 (complete_loop e probe r (push_back e kept back.0) true cs back.1).1
              (dispatch-CalledIn c r s)
              (complete_loop-CalledIn probe r (push_back e kept back.0) true cs back.1))
      ]

  complete-CalledIn :
      (probe : Text) (r : DispatchResult) (s : Hub)
      → CalledIn s (complete_dispatched_for_probe e probe r s).1
  unfolding complete_dispatched_for_probe
  complete-CalledIn probe r s = complete_loop-CalledIn probe r [] false s.pending (take_pending s).1

  after_report_sent-CalledIn :
      (cid : Text) (sent : Bool) (s : Hub) → CalledIn s (after_report_sent e cid sent s).1
  unfolding after_report_sent finish_command
  after_report_sent-CalledIn cid true s = no_call
  after_report_sent-CalledIn cid false s = no_call

  apply_event-CalledIn :
      (cid probe : Text) (event : Option (MotorCommandStatus × MotorCommandReasonCode × Text))
      (s : Hub)
      → CalledIn s (apply_event e cid probe event s).1
  unfolding apply_event ack_best_effort
  apply_event-CalledIn cid probe none s = no_call
  apply_event-CalledIn cid probe (some (status, why, message)) s =
      let t = ack_best_effort e cid probe status why message s in
      both s t.1 (after_report_sent e cid t.0 t.1).1 (one_ack _ s)
        (after_report_sent-CalledIn cid t.0 t.1)

  apply_known-CalledIn :
      (known : Bool) (cid probe : Text) (r : ProbeMotorResult) (s : Hub)
      → CalledIn s (apply_known e known cid probe r s).1
  unfolding apply_known
  apply_known-CalledIn true cid probe r s = no_call
  apply_known-CalledIn false cid probe r s = apply_event-CalledIn cid probe (report_event r) s

  apply_with_id-CalledIn :
      (id : Option Text) (probe : Text) (r : ProbeMotorResult) (s : Hub)
      → CalledIn s (apply_with_id e id probe r s).1
  unfolding apply_with_id
  apply_with_id-CalledIn none probe r s = no_call
  apply_with_id-CalledIn (some cid) probe r s =
      apply_known-CalledIn (s.applied_probe_results cid) cid probe r s

  Step-CalledIn : (s t : Hub) → Step e s t → CalledIn s t
  unfolding apply_probe_motor_result
  Step-CalledIn s t poll = poll_once-CalledIn s
  Step-CalledIn s t (complete probe r) = complete-CalledIn probe r s
  Step-CalledIn s t (apply probe r) =
      apply_with_id-CalledIn (expand_command_id r.command_id) probe r s

  -- The state of the hub has all calls since the boot, in their order.
  pub Reachable-Called : (s : Hub) → Reachable e s → Called e 0 [] s.calls s.acks
  Reachable-Called s boot = no_call
  Reachable-Called s (next {s = r} reached step) =
      Called-append 0 r.calls [] r.acks (Reachable-Called r reached) s.calls s.acks
        (Step-CalledIn r s step)
