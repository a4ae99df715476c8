-- ===== src/Net/Attempts.antt =====
-- What a loop of attempts comes to: the first attempt that goes through.
use hub_core.Base.{ℕ, zero, suc, ◌+◌, Bool, Option, none, some, if◌then◌else◌}

-- Of the `n` attempts from `start` on.
unfoldable pub first_from : (ℕ → Bool) → ℕ → ℕ → Option ℕ
first_from goes start zero = none
first_from goes start (suc n) =
    let later = first_from goes (start + 1) n in if goes start then some start else later
