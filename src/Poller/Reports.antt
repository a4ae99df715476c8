-- ===== src/Poller/Reports.antt =====
-- What becomes of a report that a probe publishes: `apply_probe_motor_result` of src/polling.rs.
use hub_core.Base.{
  ◌+◌, ◌||◌, not, Bool-cases, inl, inr, ◌≡◌, Bool, true, false, List, [], ◌∷◌, ◌++◌, Option, none,
  some, refl, ◌∙◌, arith,
}
use hub_core.Base.Int.{pos, ◌-ℤ◌, ◌≤ℤ◌}
use hub_core.Base.Text.{Text, ascii, text_eq, text_eq_refl}
use hub_core.Dedup.Retention.{saturating_sub_leb}
use hub_core.Uuid.{expand_from, expand_command_id}
use hub_core.Motor.Report.{ProbeMotorResult, is_terminal}
use hub_core.Poller.State.{
  now_ms, now_ms, Session, Hub, AckRequest, MotorCommand, PendingMotorCommand, executing, succeeded,
  no_reason, DispatchResult,
}
use hub_core.Poller.Actions.{begin_command, take_pending, ack_succeeds}
use hub_core.Dedup.{finish_processed, DedupBegin}
use hub_core.Poller.Polling.{
  expire_one, expire_loop, expire_pending_commands, store_begun, store_polled_command, store_all,
  store_pulled, pull_commands_once, poll_once,
}
use hub_core.Poller.Dispatch.{
  find_for_probe, dispatch_pending_command, push_back, after_report_sent, apply_probe_motor_result,
  peek_pending_for_probe_uuid, complete_loop, complete_dispatched_for_probe,
}
use hub_core.Poller.Reachable.{Steps, stay, then_step, Step, poll, complete, apply}

-- The acknowledgement of an EXECUTING report.
abbrev pub executing_ack : Session → Text → Text → AckRequest
executing_ack e cid probe = record {
  command_id = cid;
  hub_id = e.hub_device_id;
  node_id = probe;
  status = executing;
  reason_code = no_reason;
  reason_message = ascii "probe started executing motor command";
}

-- And that of a SUCCEEDED one.
abbrev pub succeeded_ack : Session → Text → Text → AckRequest
succeeded_ack e cid probe = record {
  command_id = cid;
  hub_id = e.hub_device_id;
  node_id = probe;
  status = succeeded;
  reason_code = no_reason;
  reason_message = ascii "probe completed motor command successfully";
}

module _ (e : Session) where
  applied-expire_loop :
      (cs : List PendingMotorCommand) (s : Hub)
      → (expire_loop e cs s).1.applied_probe_results ≡ s.applied_probe_results
  unfolding expire_loop expire_one
  applied-expire_loop [] s = refl
  applied-expire_loop (c ∷ cs) s = applied-expire_loop cs (expire_one e c s).1 ∙ ground arith

  applied-store_begun :
      (c : MotorCommand) (b : DedupBegin) (s : Hub)
      → (store_begun e c b s).1.applied_probe_results ≡ s.applied_probe_results
  unfolding store_begun
  applied-store_begun c b s = ground arith

  applied-store_all :
      (cs : List MotorCommand) (s : Hub)
      → (store_all e cs s).1.applied_probe_results ≡ s.applied_probe_results
  unfolding store_all store_polled_command
  applied-store_all [] s = refl
  applied-store_all (c ∷ cs) s =
      let begun : DedupBegin × Hub = begin_command e c.command_id s in
      applied-store_all cs (store_polled_command e c s).1 ∙ applied-store_begun c begun.0 begun.1

  applied-store_pulled :
      (pulled : Option (List MotorCommand)) (s : Hub)
      → (store_pulled e pulled s).1.applied_probe_results ≡ s.applied_probe_results
  unfolding store_pulled
  applied-store_pulled none s = refl
  applied-store_pulled (some cs) s = applied-store_all cs s

  applied-poll_once : (s : Hub) → (poll_once e s).1.applied_probe_results ≡ s.applied_probe_results
  unfolding poll_once expire_pending_commands
  applied-poll_once s =
      let s1 : Hub = (expire_loop e s.pending (take_pending s).1).1 in
      applied-store_pulled (pull_commands_once e s1).0 (pull_commands_once e s1).1
      ∙ applied-expire_loop s.pending (take_pending s).1

  applied-dispatch :
      (c : PendingMotorCommand) (r : DispatchResult) (s : Hub)
      → (dispatch_pending_command e c r s).1.applied_probe_results ≡ s.applied_probe_results
  unfolding dispatch_pending_command
  applied-dispatch c r s = ground arith

  applied-complete_loop :
      (probe : Text) (r : DispatchResult) (kept : List PendingMotorCommand) (consumed : Bool)
      (cs : List PendingMotorCommand) (s : Hub)
      → (complete_loop e probe r kept consumed cs s).1.applied_probe_results
        ≡ s.applied_probe_results
  unfolding complete_loop
  applied-complete_loop probe r kept consumed [] s = refl
  applied-complete_loop probe r kept consumed (c ∷ cs) s =
      let back : Option PendingMotorCommand × Hub = dispatch_pending_command e c r s in
      elim (Bool-cases (consumed || not (text_eq c.node_id probe))) [
        | inl pass ↦ rw pass (applied-complete_loop probe r (kept ++ c ∷ []) consumed cs s)
        | inr hit ↦ rw hit (
            applied-complete_loop probe r (push_back e kept back.0) true cs back.1
            ∙ applied-dispatch c r s)
      ]

  applied-after_report_sent :
      (cid id : Text) (sent : Bool) (s : Hub)
      → s.applied_probe_results id ≡ true
      → (after_report_sent e cid sent s).1.applied_probe_results id ≡ true
  unfolding after_report_sent
  applied-after_report_sent cid id sent s h = ground arith

  applied-apply :
      (probe id : Text) (r : ProbeMotorResult) (s : Hub)
      → s.applied_probe_results id ≡ true
      → (apply_probe_motor_result e probe r s).1.applied_probe_results id ≡ true
  unfolding apply_probe_motor_result
  applied-apply probe id r s h = ground arith

  -- An applied report stays applied.
  applied-Step :
      (id : Text) (s t : Hub)
      → Step e s t
      → s.applied_probe_results id ≡ true
      → t.applied_probe_results id ≡ true
  unfolding complete_dispatched_for_probe
  applied-Step id s t poll h = rw (applied-poll_once s) h
  applied-Step id s t (complete probe r) h =
      rw (applied-complete_loop probe r [] false s.pending (take_pending s).1) h
  applied-Step id s t (apply probe r) h = applied-apply probe id r s h

  applied-Steps :
      (id : Text) (s t : Hub)
      → Steps e s t
      → s.applied_probe_results id ≡ true
      → t.applied_probe_results id ≡ true
  applied-Steps id s t stay h = h
  applied-Steps id s t (then_step {t = u} reached step) h =
      applied-Step id u t step (applied-Steps id s u reached h)

  pub applied_skips :
      (probe : Text) (r : ProbeMotorResult) (s : Hub)
      → s.applied_probe_results (expand_from 0 r.command_id) ≡ true
      → apply_probe_motor_result e probe r s ≡ (tt, s)
  unfolding apply_probe_motor_result expand_command_id
  applied_skips probe r s h = ground arith

  applied_after_ack :
      (probe cid : Text) (r : ProbeMotorResult) (s : Hub)
      → r.status ≡ 4
      → expand_command_id r.command_id ≡ some cid
      → s.applied_probe_results cid ≡ false
      → ack_succeeds e s.calls (executing_ack e cid probe) ≡ true
      → (apply_probe_motor_result e probe r s).1.applied_probe_results cid ≡ true
  unfolding apply_probe_motor_result
  applied_after_ack probe cid r s four known fresh sent = ground (arith, text_eq_refl cid)

-- Once the backend has acknowledged that a probe EXECUTES a command, no later report of that command
-- is sent: whatever the hub does in between, a report that it SUCCEEDED, FAILED or EXPIRED (status 5
-- to 7) leaves the hub as it is.
pub executing_hides_the_end :
    (e : Session) (probe later_probe cid : Text) (r ending : ProbeMotorResult) (s t : Hub)
    → r.status ≡ 4
    → expand_command_id r.command_id ≡ some cid
    → s.applied_probe_results cid ≡ false
    → ack_succeeds e s.calls (executing_ack e cid probe) ≡ true
    → Steps e (apply_probe_motor_result e probe r s).1 t
    → ending.command_id ≡ r.command_id
    → is_terminal ending ≡ true
    → apply_probe_motor_result e later_probe ending t ≡ (tt, t)
unfolding expand_command_id
executing_hides_the_end e probe later_probe cid r ending s t four known fresh sent steps same ends =
    applied_skips e later_probe ending t (
      rw same (
        applied-Steps e (expand_from 0 r.command_id) (apply_probe_motor_result e probe r s).1 t
          steps (ground (arith, applied_after_ack e probe cid r s four known fresh sent))))

-- Where the first pending command for a probe is the one that SUCCEEDED by the report, and the backend has
-- acknowledged that report, the id is no longer in progress and is on record as finished, if at most 300 s
-- lie between the two readings of the clock that this takes; but the pending commands are those of before, so
-- that the next dispatch to the probe is that same command.
pub succeeded_still_dispatched :
    (e : Session) (probe cid : Text) (r : ProbeMotorResult) (c : PendingMotorCommand) (s : Hub)
    → r.status ≡ 5
    → expand_command_id r.command_id ≡ some cid
    → s.applied_probe_results cid ≡ false
    → ack_succeeds e s.calls (succeeded_ack e cid probe) ≡ true
    → find_for_probe probe s.pending ≡ some c
    → c.command_id ≡ cid
    → now_ms (e.clock (s.readings + 1)) -ℤ now_ms (e.clock s.readings) ≤ℤ pos 300000
    → let t = (apply_probe_motor_result e probe r s).1 in
      (t.acks ≡ (succeeded_ack e cid probe, true) ∷ s.acks)
      × (t.command_dedup.processing cid ≡ false)
      × (t.command_dedup.processed cid ≡ some (now_ms (e.clock s.readings)))
      × (t.pending ≡ s.pending)
      × (peek_pending_for_probe_uuid probe t.poller
          ≡ some (record {
            command_id = c.command_id;
            action = c.action;
            duration_ms = c.duration_ms;
            expires_at_epoch_ms = c.expires_at_epoch_ms;
          }))
unfolding apply_probe_motor_result peek_pending_for_probe_uuid finish_processed
succeeded_still_dispatched e probe cid r c s five known fresh sent found same soon =
    let kept =
      saturating_sub_leb (now_ms (e.clock (s.readings + 1))) (now_ms (e.clock s.readings)) in
    ground (arith, text_eq_refl cid, kept)
