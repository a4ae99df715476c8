-- ===== src/Storage/Cells.antt =====
-- A flash store that never fails, for the tests.
use hub_core.Base.{
  ap, ℕ, ◌+◌, length, leb, ◌≡◌, ◌≢◌, refl, ◌⊎◌, inl, inr, true, ◌&&◌, Option, none, some,
  if◌then◌else◌, arith,
}
use hub_core.Base.Text.{Text, text_eq, text_eq_iff, text_eq_refl}
use hub_core.Storage.Nvs.{Nvs, NvsLaws}
use hub_core.Storage.Flash.{Flash, Laws, HasRoom}

-- What each key of each namespace holds.
abbrev pub Cells : Type 0
Cells = Text → Text → Option Text

abbrev pub flash : Flash Cells
flash = record {
  opens = λ ns rw s. true;
  get_str = λ ns key s. some (s ns key);
  set_str = λ ns key value s.
      (true, λ ns' key'. if text_eq ns' ns && text_eq key' key then some value else s ns' key');
}

other_cell :
    (ns key value ns' key' : Text) (s : Cells)
    → (ns' ≢ ns) ⊎ (key' ≢ key)
    → (flash.set_str ns key value s).1 ns' key' ≡ s ns' key'
other_cell ns key value ns' key' s (inl n) = ground (arith, text_eq_iff ns' ns)
other_cell ns key value ns' key' s (inr n) = ground (arith, text_eq_iff key' key)

pub flash-Laws : Laws flash
flash-Laws = record {
  get_of_set = λ ns key value s h. ground (arith, text_eq_refl ns, text_eq_refl key);
  get_of_other =
      λ ns key value ns' key' s other. ap (λ o. some o) (other_cell ns key value ns' key' s other);
  opens_after = λ ns key value ns' rw s h. refl;
}

abbrev pub empty_cells : Cells
empty_cells ns key = none

pub flash-HasRoom : HasRoom flash
flash-HasRoom = record { all_open = λ ns rw s. refl; all_written = λ ns key value s. refl }

abbrev len_of : Option Text → Option ℕ
len_of none = none
len_of (some v) = some (length v + 1)

abbrev fits : ℕ → Option Text → Option (Option Text)
fits len none = some none
fits len (some v) = if leb (length v + 1) len then some (some v) else none

-- The calls below, on the same cells.
abbrev pub nvs : Nvs Cells
nvs = record {
  opens = flash.opens;
  str_len = λ ns key s. some (len_of (s ns key));
  get_str = λ ns key len s. fits len (s ns key);
  set_str = flash.set_str;
  remove = λ ns key s.
      (true, λ ns' key'. if text_eq ns' ns && text_eq key' key then none else s ns' key');
}

other_removed :
    (ns key key' : Text) (s : Cells) → key' ≢ key → (nvs.remove ns key s).1 ns key' ≡ s ns key'
other_removed ns key key' s n = ground (arith, text_eq_iff key' key)

pub nvs-NvsLaws : NvsLaws nvs (λ ns key s. s ns key)
nvs-NvsLaws = record {
  len_of_absent = λ ns key s h. rw h refl;
  len_of_text = λ ns key v s h. rw h refl;
  text_of = λ ns key v len s h fit. rw h (ground arith);
  cell_of_removed = λ ns key s h. ground (arith, text_eq_refl ns, text_eq_refl key);
  cell_of_other = other_removed;
  cell_of_set = λ ns key value s h. ground (arith, text_eq_refl ns, text_eq_refl key);
  cell_of_not_set = other_cell;
  opens_after = λ ns key value ns' rw s h. refl;
}
