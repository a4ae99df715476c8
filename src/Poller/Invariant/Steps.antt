-- ===== src/Poller/Invariant/Steps.antt =====
-- The steps that all methods share keep the invariant.
use hub_core.Base.{◌⊎◌, inl, inr, ◌+◌, [], ◌∷◌, ℕ, ◌≡◌, ◌≢◌, refl, arith}
use hub_core.Base.Text.{Text, text_eq_iff}
use hub_core.Dedup.{
  DedupBegin, already_processing, already_processed, new, try_begin, finish_processed,
}
use hub_core.Poller.State.{Session, Hub, MotorCommandStatus, MotorCommandReasonCode}
use hub_core.Poller.Actions.{
  take_pending, push_pending, unix_now_ms, begin_command, finish_command, ack_best_effort,
}
use hub_core.Poller.Invariant.{
  PendingMotorCommand, InvWith, Inv-ext, count_id, count_id-append, Inv, one_more,
}

module _ (e : Session) where
  pub ack_best_effort-poller :
      (id node : Text) (status : MotorCommandStatus) (why : MotorCommandReasonCode) (message : Text)
      (s : Hub)
      → (ack_best_effort e id node status why message s).1.poller ≡ s.poller
  unfolding ack_best_effort
  ack_best_effort-poller id node status why message s = refl

  -- A finished command is no longer held.
  pub finish_command-Inv :
      (cid : Text) (held : Text → ℕ) (s : Hub)
      → Inv (one_more cid held) s.poller
      → Inv held (finish_command e cid s).1.poller
  unfolding finish_command finish_processed
  finish_command-Inv cid held s v = record {
    no_leak = λ id h. ground (arith, v.no_leak id, text_eq_iff id cid);
    once = λ id h. ground (arith, v.no_leak id, v.once id, text_eq_iff id cid);
    apart = λ id h. ground (arith, v.apart id, text_eq_iff id cid);
  }

  -- An id that is new is in progress from now on, and its command is held.
  pub begin_command-Inv :
      (cid : Text) (held : Text → ℕ) (s : Hub)
      → Inv held s.poller
      → (begin_command e cid s).0 ≡ new
      → Inv (one_more cid held) (begin_command e cid s).1.poller
  unfolding begin_command try_begin
  begin_command-Inv cid held s v b = record {
    no_leak = λ id h. ground (arith, v.no_leak id, text_eq_iff id cid);
    once = λ id h. ground (arith, v.once id, v.once cid, text_eq_iff id cid);
    apart = λ id h. ground (arith, v.apart id, text_eq_iff id cid);
  }

  -- An id that is known changes nothing but what has grown old.
  pub begin_command-Inv_known :
      (cid : Text) (held : Text → ℕ) (s : Hub)
      → Inv held s.poller
      → (begin_command e cid s).0 ≢ new
      → Inv held (begin_command e cid s).1.poller
  unfolding begin_command try_begin
  begin_command-Inv_known cid held s v b = record {
    no_leak = λ id h. ground (arith, v.no_leak id);
    once = λ id h. ground (arith, v.once id);
    apart = λ id h. ground (arith, v.apart id);
  }

  pub finish_command-pending :
      (cid : Text) (s : Hub) → (finish_command e cid s).1.pending ≡ s.pending
  unfolding finish_command
  finish_command-pending cid s = refl

  pub begin_command-pending : (cid : Text) (s : Hub) → (begin_command e cid s).1.pending ≡ s.pending
  unfolding begin_command
  begin_command-pending cid s = refl

  pub unix_now_ms-poller : (s : Hub) → (unix_now_ms e s).1.poller ≡ s.poller
  unfolding unix_now_ms
  unix_now_ms-poller s = refl

  pub finish_command-InvWith :
      (id : Text) (extra : Text → ℕ) (s : Hub)
      → InvWith (one_more id extra) s
      → InvWith extra (finish_command e id s).1
  finish_command-InvWith id extra s v = rw (finish_command-pending id s) (
      finish_command-Inv id (λ j. count_id j s.pending + extra j) s
        (Inv-ext (λ j. count_id j s.pending + one_more id extra j)
          (one_more id (λ j. count_id j s.pending + extra j)) (λ j. omega arith) v))

  -- An acknowledgement is tried and the id is finished: its command is gone.
  pub ack_and_finish-InvWith :
      (id node : Text) (status : MotorCommandStatus) (why : MotorCommandReasonCode) (message : Text)
      (extra : Text → ℕ) (s : Hub)
      → InvWith (one_more id extra) s
      → InvWith extra (finish_command e id (ack_best_effort e id node status why message s).1).1
  unfolding ack_best_effort
  ack_and_finish-InvWith id node status why message extra s v =
      finish_command-InvWith id extra (ack_best_effort e id node status why message s).1 v

  -- A command goes from the loop to the pending ones.
  pub push_pending-InvWith :
      (c : PendingMotorCommand) (extra : Text → ℕ) (s : Hub)
      → InvWith (one_more c.command_id extra) s
      → InvWith extra (push_pending c s).1
  push_pending-InvWith c extra s v = record {
    no_leak = λ id h. omega (arith, v.no_leak id h, count_id-append id s.pending (c ∷ []));
    once = λ id h. omega (arith, v.once id h, count_id-append id s.pending (c ∷ []));
    apart = v.apart;
  }

  -- A loop that takes the pending commands over.
  pub take_pending-InvWith :
      (extra : Text → ℕ) (s : Hub)
      → InvWith extra s
      → InvWith (λ id. count_id id s.pending + extra id) (take_pending s).1
  take_pending-InvWith extra s v = record {
    no_leak = λ id h. omega (arith, v.no_leak id h);
    once = λ id h. omega (arith, v.once id h);
    apart = v.apart;
  }

  pub begin_command-InvWith :
      (cid : Text) (extra : Text → ℕ) (s : Hub)
      → InvWith extra s
      → (begin_command e cid s).0 ≡ new
      → InvWith (one_more cid extra) (begin_command e cid s).1
  begin_command-InvWith cid extra s v fresh = rw (begin_command-pending cid s) (
      Inv-ext (one_more cid (λ j. count_id j s.pending + extra j))
        (λ j. count_id j s.pending + one_more cid extra j) (λ j. omega arith)
        (begin_command-Inv cid (λ j. count_id j s.pending + extra j) s v fresh))

  pub begin_command-InvWith_known :
      (cid : Text) (extra : Text → ℕ) (s : Hub)
      → InvWith extra s
      → (begin_command e cid s).0 ≢ new
      → InvWith extra (begin_command e cid s).1
  begin_command-InvWith_known cid extra s v known =
      rw (begin_command-pending cid s)
        (begin_command-Inv_known cid (λ j. count_id j s.pending + extra j) s v known)

pub DedupBegin-cases :
    (b : DedupBegin) → (b ≡ new) ⊎ ((b ≡ already_processing) ⊎ (b ≡ already_processed))
DedupBegin-cases new = inl refl
DedupBegin-cases already_processing = inr (inl refl)
DedupBegin-cases already_processed = inr (inr refl)
