-- ===== src/Poller/Judged.antt =====
-- What `expire_pending_commands` of src/polling.rs does while its clock goes on.
use mathlib.Core.List.{append_assoc, append-nil}
use hub_core.Base.{
  not, ℕ, ◌+◌, ◌<◌, ◌≡◌, refl, sym, ap, ◌∙◌, ◌⊎◌, inl, inr, Bool, true, false, ◌&&◌, List, [], ◌∷◌,
  ◌++◌, arith, Bool-cases,
}
use hub_core.Base.Int.{ℤ, pos, ltb_ℤ, ◌≤ℤ◌, ◌<ℤ◌, epoch_ms}
use hub_core.Base.Text.{Text, text_eq, ascii}
use hub_core.Dedup.{finish_processed}
use hub_core.Poller.State.{Session, Hub, AckRequest, PendingMotorCommand, expired, expired_reason}
use hub_core.Poller.Actions.{
  is_expired_at, unix_now_ms, take_pending, ack_best_effort, finish_command,
}
use hub_core.Poller.Polling.{expire, expire_one, expire_loop, expire_pending_commands}
use hub_core.Poller.Invariant.{count_id}

-- A command expires at a time, unless that is 0 or less.
abbrev pub IsLate : ℤ → ℤ → Type 0
IsLate now expires_at = (pos 0 <ℤ expires_at) × (expires_at ≤ℤ now)

abbrev pub IsLive : ℤ → ℤ → Type 0
IsLive now expires_at = (expires_at ≤ℤ pos 0) ⊎ (now <ℤ expires_at)

module _ (e : Session) where
  abbrev pub time_at : ℕ → ℤ
  time_at n = epoch_ms (e.clock n)

  -- The k-th call goes through as an acknowledgement.
  abbrev pub goes_through : ℕ → AckRequest → Bool
  goes_through k r = e.runtime_builds k && (e.connects k e.jwt && e.ack_motor_command_event k r)

  abbrev pub expired_ack : PendingMotorCommand → AckRequest
  expired_ack c = record {
    command_id = c.command_id;
    hub_id = e.hub_device_id;
    node_id = c.node_id;
    status = expired;
    reason_code = expired_reason;
    reason_message = ascii "command expired before probe became available";
  }

-- From the n-th reading of the clock and the k-th call on, with the acknowledgements that were tried
-- before: the commands in their order, those that are kept, those that are gone, and the
-- acknowledgements that were tried then. Each command is judged at a reading of its own, and one that is
-- gone takes two more, for the time at which its id is finished.
pub data Judged (e : Session)
    : ℕ
      → ℕ
      → List PendingMotorCommand
      → List (AckRequest × Bool)
      → List PendingMotorCommand
      → List PendingMotorCommand
      → List (AckRequest × Bool)
      → Type 0 where
  all_judged : {n k : ℕ} {acks : List (AckRequest × Bool)} → Judged e n k [] acks [] [] acks
  stays :
      {n k : ℕ} {cs kept gone : List PendingMotorCommand} {acks acks' : List (AckRequest × Bool)}
      → (c : PendingMotorCommand) → IsLive (time_at e n) c.expires_at_epoch_ms
      → Judged e (n + 1) k cs acks kept gone acks'
      → Judged e n k (c ∷ cs) acks (c ∷ kept) gone acks'
  goes :
      {n k : ℕ} {cs kept gone : List PendingMotorCommand} {acks acks' : List (AckRequest × Bool)}
      → (c : PendingMotorCommand) → IsLate (time_at e n) c.expires_at_epoch_ms
      → Judged e
          (n + 3)
          (k + 1)
          cs
          ((expired_ack e c, goes_through e k (expired_ack e c)) ∷ acks)
          kept
          gone
          acks'
      → Judged e n k (c ∷ cs) acks kept (c ∷ gone) acks'

pub late_lem : (now expires_at : ℤ) → is_expired_at now expires_at ≡ true → IsLate now expires_at
late_lem now expires_at h = ground arith

pub live_lem : (now expires_at : ℤ) → is_expired_at now expires_at ≡ false → IsLive now expires_at
live_lem now expires_at h = elim (Bool-cases (ltb_ℤ (pos 0) expires_at)) [
  | inl dated ↦ inr (ground arith)
  | inr lasting ↦ inl (ground arith)
]

-- The ids of the commands that are gone are no longer in progress, and of no other id is that changed.
abbrev pub Finished : List PendingMotorCommand → Hub → Hub → Type 0
Finished gone s t =
    (id : Text)
    → ((0 < count_id id gone) × (t.command_dedup.processing id ≡ false))
      ⊎ ((count_id id gone ≡ 0) × (t.command_dedup.processing id ≡ s.command_dedup.processing id))

module _ (e : Session) where
  late_one :
      (c : PendingMotorCommand) (s : Hub)
      → is_expired_at (time_at e s.readings) c.expires_at_epoch_ms ≡ true
      → let t = (expire_one e c s).1 in
        (t.pending ≡ s.pending)
        × (t.readings ≡ s.readings + 3)
        × (t.calls ≡ s.calls + 1)
        × (t.acks ≡ (expired_ack e c, goes_through e s.calls (expired_ack e c)) ∷ s.acks)
        × ((id : Text)
            → t.command_dedup.processing id
              ≡ (not (text_eq id c.command_id) && s.command_dedup.processing id))
  unfolding expire_one unix_now_ms expire ack_best_effort finish_command finish_processed
  late_one c s h = rw h (refl, omega arith, refl, refl, λ id. refl)

  live_one :
      (c : PendingMotorCommand) (s : Hub)
      → is_expired_at (time_at e s.readings) c.expires_at_epoch_ms ≡ false
      → let t = (expire_one e c s).1 in
        (t.pending ≡ s.pending ++ c ∷ [])
        × (t.readings ≡ s.readings + 1)
        × (t.calls ≡ s.calls)
        × (t.acks ≡ s.acks)
        × (t.command_dedup ≡ s.command_dedup)
  unfolding expire_one unix_now_ms
  live_one c s h = rw h (refl, refl, refl, refl, refl)

  abbrev Expired : List PendingMotorCommand → Hub → Hub → Type 0
  Expired cs s t =
      (kept : List PendingMotorCommand) × (gone : List PendingMotorCommand) × Judged e s.readings
        s.calls cs s.acks kept gone t.acks
      × (t.pending ≡ s.pending ++ kept)
      × Finished gone s t

  late_first :
      (c : PendingMotorCommand) (gone : List PendingMotorCommand) (s m t : Hub)
      → ((id : Text)
          → m.command_dedup.processing id
            ≡ (not (text_eq id c.command_id) && s.command_dedup.processing id))
      → Finished gone m t
      → Finished (c ∷ gone) s t
  late_first c gone s m t first rest id = ground (arith, first id, rest id)

  expire_loop-Expired :
      (cs : List PendingMotorCommand) (s : Hub) → Expired cs s (expire_loop e cs s).1
  unfolding expire_loop
  expire_loop-Expired [] s =
      ([], [], all_judged, sym (append-nil s.pending), λ id. inr (refl, refl))
  expire_loop-Expired (c ∷ cs) s =
      let m : Hub = (expire_one e c s).1 in
      let t : Hub = (expire_loop e cs m).1 in
      let (kept, gone, judged, pending, finished) = expire_loop-Expired cs m in
      elim (Bool-cases (is_expired_at (time_at e s.readings) c.expires_at_epoch_ms)) [
        | inl late ↦
            let (p, r, k, a, d) = late_one c s late in
            (
              kept,
              c ∷ gone,
              goes c (late_lem _ _ late) (rw (r, k, a) at judged),
              pending ∙ ap (λ l. l ++ kept) p,
              late_first c gone s m t d finished,
            )
        | inr live ↦
            let (p, r, k, a, d) = live_one c s live in
            (
              c ∷ kept,
              gone,
              stays c (live_lem _ _ live) (rw (r, k, a) at judged),
              pending ∙ ap (λ l. l ++ kept) p ∙ append_assoc s.pending (c ∷ []) kept,
              rw d at finished,
            )
      ]

-- Whatever the clock shows and however the calls go, `expire_pending_commands` judges the pending commands
-- in their order, each at a later reading of the clock than those before it. It keeps exactly those, in
-- their order, that have no expiry (0 or less) or expire later than their reading; for each of the
-- others one acknowledgement as EXPIRED is tried, in that order, and their ids are no longer in
-- progress, while all other ids are as they were.
pub expire_pending_commands-Judged :
    (e : Session) (s : Hub)
    → let t = (expire_pending_commands e s).1 in
      (gone : List PendingMotorCommand) × Judged e s.readings s.calls s.pending s.acks t.pending
        gone t.acks
      × Finished gone s t
unfolding expire_pending_commands
expire_pending_commands-Judged e s =
    let t : Hub = (expire_loop e s.pending (take_pending s).1).1 in
    let (kept, gone, judged, pending, finished) =
      expire_loop-Expired e s.pending (take_pending s).1 in
    (gone, rw (sym pending) at judged, finished)
