-- ===== src/Poller/Delivery.antt =====
-- Which pending command a dispatch settles: src/polling.rs, `peek_pending_for_probe_uuid` before the
-- write and `complete_dispatched_for_probe` after it.
use mathlib.Core.List.{append_assoc, append-nil}
use hub_core.Base.{
  ◌≡◌, Bool, true, false, List, [], ◌∷◌, ◌++◌, Option, none, some, if◌then◌else◌, refl, ap, sym,
  ◌∙◌, arith, Bool-cases, inl, inr,
}
use hub_core.Base.Text.{Text, ascii, text_eq}
use hub_core.Poller.State.{
  Session, Hub, AckRequest, PendingMotorCommand, sent_to_probe, no_reason, DispatchResult,
  dispatched, dispatch_failed, expired_dispatch, write_failed,
}
use hub_core.Poller.Actions.{take_pending, ack_succeeds}
use hub_core.Poller.Dispatch.{
  find_for_probe, dispatch_pending_command, push_back, complete_loop, complete_dispatched_for_probe,
}

-- The pending commands without the first one for the probe.
unfoldable pub drop_first : Text → List PendingMotorCommand → List PendingMotorCommand
drop_first probe [] = []
drop_first probe (c ∷ cs) = if text_eq c.node_id probe then cs else c ∷ drop_first probe cs

abbrev pub sent_ack : Session → PendingMotorCommand → AckRequest
sent_ack e c = record {
  command_id = c.command_id;
  hub_id = e.hub_device_id;
  node_id = c.node_id;
  status = sent_to_probe;
  reason_code = no_reason;
  reason_message = ascii "motor command write acknowledged by probe";
}

-- A command leaves once its delivery is acknowledged, or once it was too late for it.
abbrev pub is_settled : Session → Hub → PendingMotorCommand → DispatchResult → Bool
is_settled e s c dispatched = ack_succeeds e s.calls (sent_ack e c)
is_settled e s c (dispatch_failed expired_dispatch) = true
is_settled e s c (dispatch_failed (write_failed message)) = false

abbrev pub settle :
    Session → Hub → Text → DispatchResult → Option PendingMotorCommand → List PendingMotorCommand
settle e s probe r none = s.pending
settle e s probe r (some c) = if is_settled e s c r then drop_first probe s.pending else s.pending

module _ (e : Session) where
  dispatch_back :
      (c : PendingMotorCommand) (r : DispatchResult) (s : Hub)
      → (dispatch_pending_command e c r s).0 ≡ (if is_settled e s c r then none else some c)
  unfolding dispatch_pending_command
  dispatch_back c r s = ground arith

  -- Behind the consumed command the loop copies.
  complete_loop_rest :
      (probe : Text) (r : DispatchResult) (kept cs : List PendingMotorCommand) (s : Hub)
      → complete_loop e probe r kept true cs s ≡ (kept ++ cs, s)
  unfolding complete_loop
  complete_loop_rest probe r kept [] s = ground (arith, append-nil kept)
  complete_loop_rest probe r kept (c ∷ cs) s =
      complete_loop_rest probe r (kept ++ c ∷ []) cs s
      ∙ ap (λ l. (l, s)) (append_assoc kept (c ∷ []) cs)

  settle_list :
      Hub
      → Text
      → DispatchResult
      → List PendingMotorCommand
      → Option PendingMotorCommand
      → List PendingMotorCommand
  settle_list s probe r cs none = cs
  settle_list s probe r cs (some c) = if is_settled e s c r then drop_first probe cs else cs

  settle-cons :
      (s : Hub) (probe : Text) (r : DispatchResult) (c : PendingMotorCommand)
      (cs : List PendingMotorCommand) (o : Option PendingMotorCommand)
      → text_eq c.node_id probe ≡ false
      → settle_list s probe r (c ∷ cs) o ≡ c ∷ settle_list s probe r cs o
  unfolding settle_list drop_first
  settle-cons s probe r c cs none h = refl
  settle-cons s probe r c cs (some d) h = rw h (ground arith)

  settle-nil : (s : Hub) (probe : Text) (r : DispatchResult) → settle_list s probe r [] none ≡ []
  unfolding settle_list
  settle-nil s probe r = refl

  settle_hit :
      (s : Hub) (probe : Text) (r : DispatchResult) (c : PendingMotorCommand)
      (cs : List PendingMotorCommand)
      → text_eq c.node_id probe ≡ true
      → settle_list s probe r (c ∷ cs) (some c) ≡ (if is_settled e s c r then cs else c ∷ cs)
  unfolding settle_list drop_first
  settle_hit s probe r c cs h = rw h refl

  -- The command that is met comes back or not, and the rest follows.
  settle_here :
      (probe : Text) (r : DispatchResult) (kept : List PendingMotorCommand)
      (c : PendingMotorCommand) (cs : List PendingMotorCommand) (s : Hub)
      → push_back e kept (dispatch_pending_command e c r s).0 ++ cs
        ≡ kept ++ (if is_settled e s c r then cs else c ∷ cs)
  settle_here probe r kept c cs s = elim (Bool-cases (is_settled e s c r)) [
    | inl gone ↦ rw (dispatch_back c r s) (rw gone)
    | inr kept_back ↦ rw (dispatch_back c r s) (rw kept_back (append_assoc kept (c ∷ []) cs))
  ]

  complete_loop_lem :
      (probe : Text) (r : DispatchResult) (kept cs : List PendingMotorCommand) (s : Hub)
      → (complete_loop e probe r kept false cs s).0
        ≡ kept ++ settle_list s probe r cs (find_for_probe probe cs)
  unfolding complete_loop find_for_probe
  complete_loop_lem probe r kept [] s =
      sym (append-nil kept) ∙ ap (◌++◌ kept) (sym (settle-nil s probe r))
  complete_loop_lem probe r kept (c ∷ cs) s =
      let back : Option PendingMotorCommand × Hub = dispatch_pending_command e c r s in
      elim (Bool-cases (text_eq c.node_id probe)) [
        | inl hit ↦ rw hit (
            ap (λ p. p.0) (complete_loop_rest probe r (push_back e kept back.0) cs back.1)
            ∙ settle_here probe r kept c cs s
            ∙ ap (◌++◌ kept) (sym (settle_hit s probe r c cs hit)))
        | inr pass ↦ rw pass (
            complete_loop_lem probe r (kept ++ c ∷ []) cs s
            ∙ append_assoc kept (c ∷ []) (settle_list s probe r cs (find_for_probe probe cs))
            ∙ ap (◌++◌ kept) (sym (settle-cons s probe r c cs (find_for_probe probe cs) pass)))
      ]

-- After `complete_dispatched_for_probe` the pending commands are those of before, in their order,
-- without the first one for the probe (the one that `peek_pending_for_probe_uuid` had given for the
-- write) if the write succeeded and its acknowledgement was accepted, or if it was too late for the
-- write; a failed write or a lost acknowledgement keeps that command in its place.
pub complete_dispatched_for_probe-pending :
    (e : Session) (probe : Text) (r : DispatchResult) (s : Hub)
    → (complete_dispatched_for_probe e probe r s).1.pending
      ≡ settle e s probe r (find_for_probe probe s.pending)
unfolding complete_dispatched_for_probe settle_list
complete_dispatched_for_probe-pending e probe r s =
    complete_loop_lem e probe r [] s.pending (take_pending s).1
    ∙ same (find_for_probe probe s.pending)
  where
    same :
        (o : Option PendingMotorCommand)
        → settle_list e (take_pending s).1 probe r s.pending o ≡ settle e s probe r o
    same none = refl
    same (some c) = ground arith
