-- ===== src/Poller/Acked.antt =====
-- No command leaves the poller in silence: for each id, the pending commands and the
-- acknowledgements tried so far never become fewer together.
use hub_core.Base.{
  ℕ, ◌+◌, ◌≤◌, ◌≡◌, Bool, true, false, not, ◌||◌, List, [], ◌∷◌, ◌++◌, Option, none, some,
  if◌then◌else◌, refl, ap, arith, Bool-cases, inl, inr,
}
use hub_core.Base.Text.{Text, text_eq}
use hub_core.Uuid.{expand_from, expand_command_id}
use hub_core.Motor.Report.{ProbeMotorResult}
use hub_core.Dedup.{DedupBegin, new, already_processing, already_processed}
use hub_core.Poller.State.{
  Session, Hub, AckRequest, MotorCommand, PendingMotorCommand, MotorCommandStatus,
  MotorCommandReasonCode, DispatchResult,
}
use hub_core.Poller.Actions.{
  unix_now_ms, begin_command, finish_command, ack_best_effort, is_expired_at, take_pending,
}
use hub_core.Poller.Polling.{
  ParsedCommandAction, run_for, stop_now, unknown, expire_one, expire_loop, expire_pending_commands,
  parse_command_action, store_parsed, store_new, store_begun, store_polled_command, store_all,
  store_pulled, pull_commands_once, poll_once,
}
use hub_core.Poller.Dispatch.{
  after_report_sent, apply_event, apply_known, apply_with_id, dispatch_pending_command, push_back,
  complete_loop, complete_dispatched_for_probe, apply_probe_motor_result, report_event,
}
use hub_core.Poller.Invariant.{count_id, count_id-append}
use hub_core.Poller.Invariant.Dispatch.{complete_loop-pending}
use hub_core.Poller.Reachable.{Step, poll, complete, apply}

-- How many acknowledgements were tried for the id.
abbrev pub acks_for : Text → List (AckRequest × Bool) → ℕ
acks_for id [] = 0
acks_for id ((r, sent) ∷ rest) = (if text_eq id r.command_id then 1 else 0) + acks_for id rest

-- The commands with the id that the poller has, or has answered for.
abbrev pub account : Text → Hub → ℕ
account id s = count_id id s.pending + acks_for id s.acks

module _ (e : Session) (id : Text) where
  account-expire_one :
      (c : PendingMotorCommand) (s : Hub)
      → account id (expire_one e c s).1 ≡ count_id id (c ∷ []) + account id s
  unfolding expire_one
  account-expire_one c s = ground (arith, count_id-append id s.pending (c ∷ []))

  account-expire_loop :
      (cs : List PendingMotorCommand) (s : Hub)
      → account id (expire_loop e cs s).1 ≡ count_id id cs + account id s
  unfolding expire_loop
  account-expire_loop [] s = omega arith
  account-expire_loop (c ∷ cs) s =
      omega (arith, account-expire_loop cs (expire_one e c s).1, account-expire_one c s)

  account-store_parsed :
      (c : MotorCommand) (a : ParsedCommandAction) (s : Hub)
      → account id (store_parsed e c a s).1
        ≡ (if text_eq id c.command_id then 1 else 0) + account id s
  unfolding store_parsed
  account-store_parsed c (run_for d) s =
      let p : PendingMotorCommand = record {
        command_id = c.command_id;
        node_id = c.node_id;
        action = 1;
        duration_ms = c.duration_ms;
        expires_at_epoch_ms = c.expires_at;
      } in
      ground (arith, count_id-append id s.pending (p ∷ []))
  account-store_parsed c stop_now s =
      let p : PendingMotorCommand = record {
        command_id = c.command_id;
        node_id = c.node_id;
        action = 0;
        duration_ms = c.duration_ms;
        expires_at_epoch_ms = c.expires_at;
      } in
      ground (arith, count_id-append id s.pending (p ∷ []))
  account-store_parsed c (unknown raw) s = ground arith

  account-store_new :
      (c : MotorCommand) (s : Hub)
      → account id (store_new e c s).1 ≡ (if text_eq id c.command_id then 1 else 0) + account id s
  unfolding store_new unix_now_ms
  account-store_new c s =
      let s1 : Hub = (unix_now_ms e s).1 in
      elim (Bool-cases (is_expired_at (unix_now_ms e s).0 c.expires_at)) [
        | inl late ↦ rw late (omega arith)
        | inr early ↦ rw early (account-store_parsed c (parse_command_action e c) s1)
      ]

  account-store_begun :
      (c : MotorCommand) (b : DedupBegin) (s : Hub)
      → account id s ≤ account id (store_begun e c b s).1
  unfolding store_begun
  account-store_begun c new s = omega (arith, account-store_new c s)
  account-store_begun c already_processing s = omega arith
  account-store_begun c already_processed s = omega arith

  account-store_polled_command :
      (c : MotorCommand) (s : Hub) → account id s ≤ account id (store_polled_command e c s).1
  unfolding store_polled_command
  account-store_polled_command c s =
      account-store_begun c (begin_command e c.command_id s).0 (begin_command e c.command_id s).1

  account-store_all :
      (cs : List MotorCommand) (s : Hub) → account id s ≤ account id (store_all e cs s).1
  unfolding store_all
  account-store_all [] s = omega arith
  account-store_all (c ∷ cs) s =
      omega (
        arith,
        account-store_polled_command c s,
        account-store_all cs (store_polled_command e c s).1,
      )

  account-store_pulled :
      (pulled : Option (List MotorCommand)) (s : Hub)
      → account id s ≤ account id (store_pulled e pulled s).1
  unfolding store_pulled
  account-store_pulled none s = omega arith
  account-store_pulled (some cs) s = account-store_all cs s

  account-poll_once : (s : Hub) → account id s ≤ account id (poll_once e s).1
  unfolding poll_once expire_pending_commands
  account-poll_once s =
      let s1 : Hub = (expire_loop e s.pending (take_pending s).1).1 in
      omega (
        arith,
        account-expire_loop s.pending (take_pending s).1,
        account-store_pulled (pull_commands_once e s1).0 (pull_commands_once e s1).1,
      )

  account-dispatch :
      (c : PendingMotorCommand) (r : DispatchResult) (kept : List PendingMotorCommand) (s : Hub)
      → count_id id (kept ++ c ∷ []) + account id s
        ≤ count_id id (push_back e kept (dispatch_pending_command e c r s).0)
          + account id (dispatch_pending_command e c r s).1
  unfolding dispatch_pending_command
  account-dispatch c r kept s = ground (arith, count_id-append id kept (c ∷ []))

  account-complete_loop :
      (probe : Text) (r : DispatchResult) (kept : List PendingMotorCommand) (consumed : Bool)
      (cs : List PendingMotorCommand) (s : Hub)
      → count_id id kept + (count_id id cs + account id s)
        ≤ count_id id (complete_loop e probe r kept consumed cs s).0
          + account id (complete_loop e probe r kept consumed cs s).1
  unfolding complete_loop
  account-complete_loop probe r kept consumed [] s = omega arith
  account-complete_loop probe r kept consumed (c ∷ cs) s =
      let back : Option PendingMotorCommand × Hub = dispatch_pending_command e c r s in
      elim (Bool-cases (consumed || not (text_eq c.node_id probe))) [
        | inl pass ↦ rw pass (
            omega (
              arith,
              account-complete_loop probe r (kept ++ c ∷ []) consumed cs s,
              count_id-append id kept (c ∷ []),
            ))
        | inr hit ↦ rw hit (
            omega (
              arith,
              account-complete_loop probe r (push_back e kept back.0) true cs back.1,
              account-dispatch c r kept s,
              count_id-append id kept (c ∷ []),
            ))
      ]

  account_complete :
      (probe : Text) (r : DispatchResult) (s : Hub)
      → account id s ≤ account id (complete_dispatched_for_probe e probe r s).1
  unfolding complete_dispatched_for_probe
  account_complete probe r s =
      let s0 : Hub = (take_pending s).1 in
      let after : List PendingMotorCommand × Hub = complete_loop e probe r [] false s.pending s0 in
      let empty : after.1.pending ≡ [] = complete_loop-pending e probe r [] false s.pending s0 in
      omega (arith, account-complete_loop probe r [] false s.pending s0, ap (count_id id) empty)

  account-after_report_sent :
      (cid : Text) (sent : Bool) (s : Hub)
      → account id (after_report_sent e cid sent s).1 ≡ account id s
  unfolding after_report_sent finish_command
  account-after_report_sent cid true s = refl
  account-after_report_sent cid false s = refl

  account-apply_event :
      (cid probe : Text) (event : Option (MotorCommandStatus × MotorCommandReasonCode × Text))
      (s : Hub)
      → account id s ≤ account id (apply_event e cid probe event s).1
  unfolding apply_event
  account-apply_event cid probe none s = omega arith
  account-apply_event cid probe (some (status, why, message)) s =
      let answer : Bool × Hub = ack_best_effort e cid probe status why message s in
      omega (arith, account-after_report_sent cid answer.0 answer.1)

  account-apply_known :
      (known : Bool) (cid probe : Text) (r : ProbeMotorResult) (s : Hub)
      → account id s ≤ account id (apply_known e known cid probe r s).1
  unfolding apply_known
  account-apply_known true cid probe r s = omega arith
  account-apply_known false cid probe r s = account-apply_event cid probe (report_event r) s

  account-apply :
      (probe : Text) (r : ProbeMotorResult) (s : Hub)
      → account id s ≤ account id (apply_probe_motor_result e probe r s).1
  unfolding apply_probe_motor_result apply_with_id expand_command_id
  account-apply probe r s =
      let cid : Text = expand_from 0 r.command_id in
      account-apply_known (s.applied_probe_results cid) cid probe r s

-- In each step of the poller and for each id, the number of pending commands with the id falls by at
-- most the number of acknowledgements for it that are tried in the step: no command is dropped
-- without one.
pub Step-account : (e : Session) (id : Text) (s t : Hub) → Step e s t → account id s ≤ account id t
Step-account e id s t poll = account-poll_once e id s
Step-account e id s t (complete probe r) = account_complete e id probe r s
Step-account e id s t (apply probe r) = account-apply e id probe r s
