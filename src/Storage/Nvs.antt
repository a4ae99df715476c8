-- ===== src/Storage/Nvs.antt =====
-- src/nvs_store.rs and src/persist.rs, `read_str`, and src/nvs_store.rs, `clear`: the flash store on the calls of
-- EspNvs.
use hub_core.Base.{
  sym, ◌⊎◌, ◌∙◌, false, Bool-cases, ◌≡◌, ◌≢◌, refl, inl, inr, ℕ, ◌+◌, ◌≤◌, Bool, true, not, Option,
  none, some, length, if◌then◌else◌, arith,
}
use hub_core.Base.Text.{Text}
use hub_core.Storage.Flash.{Flash, Laws}
use hub_core.Storage.WifiStore.{wifi_namespace, key_ssid, key_pass, load}

-- The calls: `none` is an error, and `some none` an absent key. `str_len` counts the final NUL, and `get_str`
-- takes the size of the buffer.
pub record Nvs (S : Type 0) : Type 0 where
  pub opens : Text → Bool → S → Bool
  pub str_len : Text → Text → S → Option (Option ℕ)
  pub get_str : Text → Text → ℕ → S → Option (Option Text)
  pub set_str : Text → Text → Text → S → Bool × S
  pub remove : Text → Text → S → Bool × S

-- What the calls do on a partition whose keys hold `cell`: a text is read into a buffer that is large enough,
-- and a removal that goes through touches its key alone.
pub record NvsLaws {S : Type 0} (n : Nvs S) (cell : Text → Text → S → Option Text) : Type 0 where
  pub len_of_absent :
      (ns key : Text) (s : S) → cell ns key s ≡ none → n.str_len ns key s ≡ some none
  pub len_of_text :
      (ns key v : Text) (s : S)
      → cell ns key s ≡ some v
      → n.str_len ns key s ≡ some (some (length v + 1))
  pub text_of :
      (ns key v : Text) (len : ℕ) (s : S)
      → cell ns key s ≡ some v
      → length v + 1 ≤ len
      → n.get_str ns key len s ≡ some (some v)
  pub cell_of_removed :
      (ns key : Text) (s : S)
      → (n.remove ns key s).0 ≡ true
      → cell ns key (n.remove ns key s).1 ≡ none
  pub cell_of_other :
      (ns key key' : Text) (s : S)
      → key' ≢ key
      → cell ns key' (n.remove ns key s).1 ≡ cell ns key' s
  pub cell_of_set :
      (ns key value : Text) (s : S)
      → (n.set_str ns key value s).0 ≡ true
      → cell ns key (n.set_str ns key value s).1 ≡ some value
  pub cell_of_not_set :
      (ns key value ns' key' : Text) (s : S)
      → ((ns' ≢ ns) ⊎ (key' ≢ key))
      → cell ns' key' (n.set_str ns key value s).1 ≡ cell ns' key' s
  pub opens_after :
      (ns key value ns' : Text) (rw : Bool) (s : S)
      → n.opens ns' rw s ≡ true
      → n.opens ns' rw (n.set_str ns key value s).1 ≡ true

module _ {S : Type 0} (n : Nvs S) where
  -- From what `str_len` gives.
  abbrev pub read_len : Text → Text → S → Option (Option ℕ) → Option (Option Text)
  read_len ns key s none = none
  read_len ns key s (some none) = some none
  read_len ns key s (some (some len)) = n.get_str ns key len s

  unfoldable pub read_str : Text → Text → S → Option (Option Text)
  read_str ns key s = read_len ns key s (n.str_len ns key s)

  -- The store that the other modules use.
  abbrev pub flash_of : Flash S
  flash_of = record { opens = n.opens; get_str = read_str; set_str = n.set_str }

  -- The result of a removal is passed over.
  unfoldable pub clear : S → Bool × S
  clear s =
      if not (n.opens wifi_namespace true s)
      then (false, s)
      else (true, (n.remove wifi_namespace key_pass (n.remove wifi_namespace key_ssid s).1).1)

module _ {S : Type 0} (n : Nvs S) (cell : Text → Text → S → Option Text)
    (laws : NvsLaws n cell) where
  -- The buffer is large enough, so that what the key holds is read.
  read_str-cell :
      (ns key : Text) (s : S) (o : Option Text) → cell ns key s ≡ o → read_str n ns key s ≡ some o
  unfolding read_str
  read_str-cell ns key s none h = rw (laws.len_of_absent ns key s h) refl
  read_str-cell ns key s (some v) h =
      rw (laws.len_of_text ns key v s h) (laws.text_of ns key v (length v + 1) s h (omega arith))

  -- `read_str` and the calls have the laws that the stores rely on.
  pub flash_of-Laws : Laws (flash_of n)
  flash_of-Laws = record {
    get_of_set = λ ns key value s h.
        read_str-cell ns key (n.set_str ns key value s).1 (some value)
          (laws.cell_of_set ns key value s h);
    get_of_other = λ ns key value ns' key' s other.
        read_str-cell ns' key' (n.set_str ns key value s).1 (cell ns' key' s)
          (laws.cell_of_not_set ns key value ns' key' s other)
        ∙ sym (read_str-cell ns' key' s (cell ns' key' s) refl);
    opens_after = laws.opens_after;
  }

  keys-ne : key_ssid ≢ key_pass
  keys-ne e = ground arith

  -- Behind a `clear` whose first removal goes through there are no credentials.
  pub load-clear :
      (s : S)
      → n.opens wifi_namespace true s ≡ true
      → (n.remove wifi_namespace key_ssid s).0 ≡ true
      → load (flash_of n) (clear n s).1 ≡ none
  unfolding clear load
  load-clear s o h =
      let first : S = (n.remove wifi_namespace key_ssid s).1 in
      let t : S = (n.remove wifi_namespace key_pass first).1 in
      let gone : read_str n wifi_namespace key_ssid t ≡ some none =
        read_str-cell wifi_namespace key_ssid t none (
          laws.cell_of_other wifi_namespace key_pass key_ssid first keys-ne
          ∙ laws.cell_of_removed wifi_namespace key_ssid s h) in
      elim (Bool-cases (n.opens wifi_namespace true t)) [
        | inl usable ↦ rw (o, usable) (rw gone refl)
        | inr shut ↦ rw (o, shut) refl
      ]
