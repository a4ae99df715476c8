-- ===== src/Poller/Finished.antt =====
-- What it takes that a command which is finished stays out: src/polling.rs, the dedup set under a clock that
-- is within the retention time.
pub mod Steps
pub mod Polling
pub mod Dispatch
use hub_core.Base.{
  ◌≡◌, refl, sym, ap, ◌∙◌, ℕ, ◌+◌, ◌≤◌, ◌<◌, ◌^◌, Bool, true, false, [], ◌∷◌, Option, some, none,
  if◌then◌else◌, arith, Bool-cases, inl, inr,
}
use hub_core.Base.Int.{ℤ, pos, leb_ℤ, saturating_sub}
use hub_core.Base.Text.{Text, text_eq, text_eq_iff, text_eq_refl}
use hub_core.Dedup.{
  CommandDedupSet, already_processed, retention_ms, prune, try_begin, finish_processed,
}
use hub_core.Poller.State.{
  Session, Hub, PendingMotorCommand, MotorCommandStatus, MotorCommandReasonCode, now_ms,
}
use hub_core.Poller.Actions.{
  unix_now_ms, begin_command, finish_command, ack_best_effort, push_pending,
}
use hub_core.Poller.Invariant.{count_id, count_id-append}

-- A time, in milliseconds, that is at most the retention time behind `since`.
abbrev pub Within : ℕ → ℕ → Type 0
Within since time = (since ≤ time) × (time ≤ since + 300000)

-- From the reading `from` on the clock is within.
abbrev pub ClockWithin : Session → ℕ → ℕ → Type 0
ClockWithin e from since =
    (n : ℕ) → from ≤ n → (time : ℕ) × (now_ms (e.clock n) ≡ pos time) × Within since time

-- The id is on record as finished, and no pending command has it.
pub record Out (id : Text) (from since : ℕ) (s : Hub) : Type 0 where
  pub seen : ℕ
  pub recorded : s.command_dedup.processed id ≡ some (pos seen)
  pub recent : Within since seen
  pub absent : count_id id s.pending ≡ 0
  pub later : from ≤ s.readings

pub is_kept :
    (since now seen : ℕ)
    → since + 300000 < 2 ^ 63
    → Within since now
    → Within since seen
    → leb_ℤ (saturating_sub (pos now) (pos seen)) retention_ms ≡ true
is_kept since now seen small a b = ground arith

-- What is begun does not touch the record.
try_begin-pruned :
    (now : ℤ) (id cid : Text) (d : CommandDedupSet)
    → (try_begin now cid d).1.processed id ≡ (prune now d).processed id
unfolding try_begin
try_begin-pruned now id cid d = ground arith

module _ (since : ℕ) (small : since + 300000 < 2 ^ 63) where
  -- `prune` keeps the record.
  pub prune-processed :
      (id : Text) (now seen : ℕ) (d : CommandDedupSet)
      → d.processed id ≡ some (pos seen)
      → Within since now
      → Within since seen
      → (prune (pos now) d).processed id ≡ some (pos seen)
  unfolding prune
  prune-processed id now seen d h a b = rw h (rw (is_kept since now seen small a b) refl)

  -- The record that is left for the id when some command is finished.
  pub finish_processed-processed :
      (id cid : Text) (at now seen : ℕ) (d : CommandDedupSet)
      → d.processed id ≡ some (pos seen)
      → Within since at
      → Within since now
      → Within since seen
      → (finish_processed (pos at) (pos now) cid d).processed id
        ≡ some (pos (if text_eq id cid then at else seen))
  unfolding finish_processed
  finish_processed-processed id cid at now seen d h a b c = elim (Bool-cases (text_eq id cid)) [
    | inl same ↦ rw same (rw (is_kept since now at small b a) refl)
    | inr other ↦ rw (other, h) (rw (is_kept since now seen small b c) refl)
  ]

  pub try_begin-processed :
      (id cid : Text) (now seen : ℕ) (d : CommandDedupSet)
      → d.processed id ≡ some (pos seen)
      → Within since now
      → Within since seen
      → (try_begin (pos now) cid d).1.processed id ≡ some (pos seen)
  try_begin-processed id cid now seen d h a b =
      try_begin-pruned (pos now) id cid d ∙ prune-processed id now seen d h a b

  pub try_begin_finished :
      (id : Text) (now seen : ℕ) (d : CommandDedupSet)
      → d.processed id ≡ some (pos seen)
      → Within since now
      → Within since seen
      → (try_begin (pos now) id d).0 ≡ already_processed
  unfolding try_begin prune
  try_begin_finished id now seen d h a b = ground (arith, h, is_kept since now seen small a b)
