-- ===== src/Poller/Expiry.antt =====
-- Which pending commands `expire_pending_commands` of src/polling.rs keeps.
use mathlib.Core.List.{append_assoc, append-nil}
use hub_core.Base.{
  ℕ, ◌≡◌, ap, sym, ◌∙◌, inl, inr, List, [], ◌∷◌, ◌++◌, some, if◌then◌else◌, arith, Bool-cases,
}
use hub_core.Base.Int.{as_i64}
use hub_core.Poller.State.{Session, Hub, PendingMotorCommand}
use hub_core.Poller.Actions.{is_expired_at, unix_now_ms, take_pending}
use hub_core.Poller.Polling.{expire, expire_one, expire_loop, expire_pending_commands}

-- The commands that are not expired at the time, in order.
abbrev pub live_at : ℕ → List PendingMotorCommand → List PendingMotorCommand
live_at time [] = []
live_at time (c ∷ cs) =
    if is_expired_at (as_i64 time) c.expires_at_epoch_ms
    then live_at time cs
    else c ∷ live_at time cs

module _ (e : Session) (time : ℕ) (steady : (n : ℕ) → e.clock n ≡ some time) where
  expire_one-pending :
      (c : PendingMotorCommand) (s : Hub)
      → (expire_one e c s).1.pending ≡ s.pending ++ live_at time (c ∷ [])
  unfolding expire_one unix_now_ms expire
  expire_one-pending c s = ground (arith, steady s.readings, append-nil s.pending)

  live_at-append :
      (xs : List PendingMotorCommand) (c : PendingMotorCommand) (cs : List PendingMotorCommand)
      → (xs ++ live_at time (c ∷ [])) ++ live_at time cs ≡ xs ++ live_at time (c ∷ cs)
  live_at-append xs c cs = elim (Bool-cases (is_expired_at (as_i64 time) c.expires_at_epoch_ms)) [
    | inl late ↦ rw late (ap (λ ys. ys ++ live_at time cs) (append-nil xs))
    | inr live ↦ rw live (append_assoc xs (c ∷ []) (live_at time cs))
  ]

  expire_loop-pending :
      (cs : List PendingMotorCommand) (s : Hub)
      → (expire_loop e cs s).1.pending ≡ s.pending ++ live_at time cs
  unfolding expire_loop
  expire_loop-pending [] s = sym (append-nil s.pending)
  expire_loop-pending (c ∷ cs) s =
      expire_loop-pending cs (expire_one e c s).1
      ∙ ap (λ xs. xs ++ live_at time cs) (expire_one-pending c s)
      ∙ live_at-append s.pending c cs

-- While the clock shows one time, `expire_pending_commands` keeps the commands that are not expired at
-- that time (those without an expiry among them), in their order, and no other.
pub expire_pending_commands-live :
    (e : Session) (time : ℕ) (s : Hub)
    → ((n : ℕ) → e.clock n ≡ some time)
    → (expire_pending_commands e s).1.pending ≡ live_at time s.pending
unfolding expire_pending_commands
expire_pending_commands-live e time s steady =
    expire_loop-pending e time steady s.pending (take_pending s).1
