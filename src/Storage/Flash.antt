-- ===== src/Storage/Flash.antt =====
-- The NVS partition of esp-idf-svc: the calls that the stores make of it, and what they rely on.
use hub_core.Base.{◌≡◌, ◌≢◌, ◌⊎◌, Bool, true, Option, some}
use hub_core.Base.Text.{Text}

-- `opens` tells whether a namespace can be opened for writing (`true`) or reading only; `get_str` is
-- `none` on an error and `some none` without the key; `set_str` tells whether it went through.
pub record Flash (S : Type 0) : Type 0 where
  pub opens : Text → Bool → S → Bool
  pub get_str : Text → Text → S → Option (Option Text)
  pub set_str : Text → Text → Text → S → Bool × S

-- A write that goes through is read back, and touches no other key.
pub record Laws {S : Type 0} (f : Flash S) : Type 0 where
  pub get_of_set :
      (ns key value : Text) (s : S)
      → (f.set_str ns key value s).0 ≡ true
      → f.get_str ns key (f.set_str ns key value s).1 ≡ some (some value)
  pub get_of_other :
      (ns key value ns' key' : Text) (s : S)
      → ((ns' ≢ ns) ⊎ (key' ≢ key))
      → f.get_str ns' key' (f.set_str ns key value s).1 ≡ f.get_str ns' key' s
  pub opens_after :
      (ns key value ns' : Text) (rw : Bool) (s : S)
      → f.opens ns' rw s ≡ true
      → f.opens ns' rw (f.set_str ns key value s).1 ≡ true

-- The store can be opened, and has room for every text.
pub record HasRoom {S : Type 0} (f : Flash S) : Type 0 where
  pub all_open : (ns : Text) (rw : Bool) (s : S) → f.opens ns rw s ≡ true
  pub all_written : (ns key value : Text) (s : S) → (f.set_str ns key value s).0 ≡ true
