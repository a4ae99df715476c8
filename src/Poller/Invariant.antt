-- ===== src/Poller/Invariant.antt =====
-- What holds of the poller between two steps: which ids are in progress, and which are held.
pub mod Steps
pub mod Polling
pub mod Dispatch
use hub_core.Base.{
  ℕ, zero, suc, ◌+◌, ◌<◌, ◌≡◌, Bool, true, false, List, [], ◌∷◌, ◌++◌, Option, none, if◌then◌else◌,
  refl, arith,
}
use hub_core.Base.Text.{Text, text_eq}
use hub_core.Poller.State.{PendingMotorCommand, CommandPoller, Hub}

-- How many of the commands have the id.
abbrev pub count_id : Text → List PendingMotorCommand → ℕ
count_id id [] = 0
count_id id (c ∷ cs) = (if text_eq id c.command_id then 1 else 0) + count_id id cs

pub count_id-append :
    (id : Text) (xs ys : List PendingMotorCommand)
    → count_id id (xs ++ ys) ≡ count_id id xs + count_id id ys
count_id-append id [] ys = omega arith
count_id-append id (c ∷ xs) ys = omega (arith, count_id-append id xs ys)

-- `held id` commands with the id are pending, or on their way there.
pub record Inv (held : Text → ℕ) (p : CommandPoller) : Type 0 where
  -- An id in progress has a command that is held.
  pub no_leak : (id : Text) → p.command_dedup.processing id ≡ true → 0 < held id
  -- Unless a report for the id was applied, one command is held if it is in progress, and else none.
  pub once :
      (id : Text)
      → p.applied_probe_results id ≡ false
      → held id ≡ (if p.command_dedup.processing id then 1 else 0)
  -- No id is both in progress and finished.
  pub apart :
      (id : Text) → p.command_dedup.processing id ≡ true → p.command_dedup.processed id ≡ none

abbrev pub one_more : Text → (Text → ℕ) → Text → ℕ
one_more new_id held id = (if text_eq id new_id then 1 else 0) + held id

-- Of a whole hub: what is held is what is pending.
abbrev pub HubInv : Hub → Type 0
HubInv s = Inv (λ id. count_id id s.pending) s.poller

pub Inv-ext :
    {p : CommandPoller} (held held' : Text → ℕ)
    → ((id : Text) → held id ≡ held' id)
    → Inv held p
    → Inv held' p
Inv-ext held held' e v = record {
  no_leak = λ id h. omega (arith, e id, v.no_leak id h);
  once = λ id h. omega (arith, e id, v.once id h);
  apart = v.apart;
}

-- In the middle of a loop: `extra id` commands with the id are in the loop's own lists.
abbrev pub InvWith : (Text → ℕ) → Hub → Type 0
InvWith extra s = Inv (λ id. count_id id s.pending + extra id) s.poller
