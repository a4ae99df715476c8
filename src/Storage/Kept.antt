-- ===== src/Storage/Kept.antt =====
-- The identity stays, the token is read back, and the stores leave one another alone: src/persist.rs.
use hub_core.Base.{
  ◌≡◌, ◌≢◌, refl, ◌∙◌, ◌⊎◌, inl, inr, Bool, true, false, Option, none, some, arith, Bool-cases,
}
use hub_core.Base.Text.{Text}
use hub_core.Provisioning.Credentials.{WifiCredentials}
use hub_core.Storage.Flash.{Flash, Laws}
use hub_core.Storage.WifiStore.{wifi_namespace, key_ssid, key_pass, then_password, save}
use hub_core.Storage.Identity.{
  hub_namespace, key_device_id, key_hub_secret, key_jwt, seed, creds_of, load_or_generate_creds,
  read_hub_jwt, write_hub_jwt,
}

module _ {S : Type 0} (f : Flash S) (laws : Laws f) (device_id hub_secret : Text) where
  ids-ne : key_device_id ≢ key_hub_secret
  ids-ne e = ground arith

  pub stored :
      (later_id later_secret : Text) (t : S) (a : Text × Text)
      → f.opens hub_namespace true t ≡ true
      → f.get_str hub_namespace key_device_id t ≡ some (some a.0)
      → f.get_str hub_namespace key_hub_secret t ≡ some (some a.1)
      → load_or_generate_creds f later_id later_secret t ≡ (some a, t)
  unfolding load_or_generate_creds
  stored later_id later_secret t a o i x = rw o (rw i (rw x refl))

  -- Behind a seed that went through both keys hold the build's values.
  seed_then_read :
      (later_id later_secret : Text) (s : S) (a : Text × Text)
      → f.opens hub_namespace true s ≡ true
      → (seed f device_id hub_secret s).0 ≡ some a
      → load_or_generate_creds f later_id later_secret (seed f device_id hub_secret s).1
        ≡ (some a, (seed f device_id hub_secret s).1)
  seed_then_read later_id later_secret s a o h =
      let first = f.set_str hub_namespace key_device_id device_id s in
      let second = f.set_str hub_namespace key_hub_secret hub_secret first.1 in
      elim (Bool-cases first.0) [
        | inr failed ↦ absurd (ground arith)
        | inl one ↦ elim (Bool-cases second.0) [
          | inr failed ↦ absurd (ground arith)
          | inl two ↦
              let final : (seed f device_id hub_secret s).1 ≡ second.1 = ground arith in
              let given : a ≡ (device_id, hub_secret) = ground arith in
              let o1 =
                laws.opens_after hub_namespace key_device_id device_id hub_namespace true s o in
              let o2 =
                laws.opens_after hub_namespace key_hub_secret hub_secret hub_namespace true first.1
                  o1 in
              let id =
                laws.get_of_other hub_namespace key_hub_secret hub_secret hub_namespace
                  key_device_id first.1 (inr ids-ne)
                ∙ laws.get_of_set hub_namespace key_device_id device_id s one in
              let secret = laws.get_of_set hub_namespace key_hub_secret hub_secret first.1 two in
              rw (final, given)
                (stored later_id later_secret second.1 (device_id, hub_secret) o2 id secret)
        ]
      ]

  again_of :
      (later_id later_secret : Text) (i x : Option (Option Text)) (s : S) (a : Text × Text)
      → f.opens hub_namespace true s ≡ true
      → f.get_str hub_namespace key_device_id s ≡ i
      → f.get_str hub_namespace key_hub_secret s ≡ x
      → (creds_of f device_id hub_secret i x s).0 ≡ some a
      → load_or_generate_creds f later_id later_secret (creds_of f device_id hub_secret i x s).1
        ≡ (some a, (creds_of f device_id hub_secret i x s).1)
  again_of later_id later_secret (some (some id)) (some (some secret)) s a o hi hx h =
      let given : a ≡ (id, secret) = ground arith in
      rw given (stored later_id later_secret s (id, secret) o hi hx)
  again_of later_id later_secret (some (some id)) (some none) s a o hi hx h =
      seed_then_read later_id later_secret s a o h
  again_of later_id later_secret (some none) (some x) s a o hi hx h =
      seed_then_read later_id later_secret s a o h
  again_of later_id later_secret none x s a o hi hx h = absurd (ground arith)
  again_of later_id later_secret (some none) none s a o hi hx h = absurd (ground arith)
  again_of later_id later_secret (some (some id)) none s a o hi hx h = absurd (ground arith)

  load_opened :
      (s : S)
      → f.opens hub_namespace true s ≡ true
      → load_or_generate_creds f device_id hub_secret s
        ≡ creds_of f device_id hub_secret
            (f.get_str hub_namespace key_device_id s)
            (f.get_str hub_namespace key_hub_secret s)
            s
  unfolding load_or_generate_creds
  load_opened s o = rw o refl

  load_opens :
      (s : S) (a : Text × Text)
      → (load_or_generate_creds f device_id hub_secret s).0 ≡ some a
      → f.opens hub_namespace true s ≡ true
  unfolding load_or_generate_creds
  load_opens s a h = elim (Bool-cases (f.opens hub_namespace true s)) [
    | inl o ↦ o
    | inr shut ↦ absurd (ground arith)
  ]

-- Once `load_or_generate_creds` has returned an identity, every later call returns that identity and
-- writes nothing, whichever identity a later build brings.
pub load_or_generate_creds-again :
    {S : Type 0} (f : Flash S) (device_id hub_secret later_id later_secret : Text) (s : S)
    (a : Text × Text)
    → Laws f
    → (load_or_generate_creds f device_id hub_secret s).0 ≡ some a
    → load_or_generate_creds f later_id later_secret
        (load_or_generate_creds f device_id hub_secret s).1
      ≡ (some a, (load_or_generate_creds f device_id hub_secret s).1)
load_or_generate_creds-again f device_id hub_secret later_id later_secret s a laws h =
    let o = load_opens f laws device_id hub_secret s a h in
    let opened = load_opened f laws device_id hub_secret s o in
    rw opened (
      again_of f laws device_id hub_secret later_id later_secret
        (f.get_str hub_namespace key_device_id s) (f.get_str hub_namespace key_hub_secret s) s a o
        refl refl (rw (← opened) h))

module _ {S : Type 0} (f : Flash S) (laws : Laws f) where
  pub write_hub_jwt-other :
      (jwt key : Text) (s : S)
      → key ≢ key_jwt
      → f.get_str hub_namespace key (write_hub_jwt f jwt s).1 ≡ f.get_str hub_namespace key s
  unfolding write_hub_jwt
  write_hub_jwt-other jwt key s n = elim (Bool-cases (f.opens hub_namespace true s)) [
    | inr shut ↦ rw shut refl
    | inl o ↦ rw o (laws.get_of_other hub_namespace key_jwt jwt hub_namespace key s (inr n))
  ]

  spaces-ne : hub_namespace ≢ wifi_namespace
  spaces-ne e = ground arith

  then_password-other :
      (password key : Text) (p : Bool × S)
      → f.get_str hub_namespace key (then_password f password p).1 ≡ f.get_str hub_namespace key p.1
  then_password-other password key (false, s) = refl
  then_password-other password key (true, s) =
      laws.get_of_other wifi_namespace key_pass password hub_namespace key s (inl spaces-ne)

  save-other :
      (c : WifiCredentials) (key : Text) (s : S)
      → f.get_str hub_namespace key (save f c s).1 ≡ f.get_str hub_namespace key s
  unfolding save
  save-other c key s = elim (Bool-cases (f.opens wifi_namespace true s)) [
    | inr shut ↦ rw shut refl
    | inl o ↦ rw o (
        then_password-other c.password key (f.set_str wifi_namespace key_ssid c.ssid s)
        ∙ laws.get_of_other wifi_namespace key_ssid c.ssid hub_namespace key s (inl spaces-ne))
  ]

  pub read-write_hub_jwt :
      (jwt : Text) (s : S)
      → (write_hub_jwt f jwt s).0 ≡ true
      → f.opens hub_namespace false s ≡ true
      → read_hub_jwt f (write_hub_jwt f jwt s).1 ≡ some (some jwt)
  unfolding write_hub_jwt read_hub_jwt
  read-write_hub_jwt jwt s w r = elim (Bool-cases (f.opens hub_namespace true s)) [
    | inr shut ↦ absurd (ground arith)
    | inl o ↦
        let readable = laws.opens_after hub_namespace key_jwt jwt hub_namespace false s r in
        rw o (rw readable (laws.get_of_set hub_namespace key_jwt jwt s (ground arith)))
  ]

identity-ne : (key : Text) → (key ≡ key_device_id) ⊎ (key ≡ key_hub_secret) → key ≢ key_jwt
identity-ne key (inl h) e = ground arith
identity-ne key (inr h) e = ground arith

-- A token that `write_hub_jwt` wrote is what `read_hub_jwt` returns, where the namespace could be read.
pub read_hub_jwt-write :
    {S : Type 0} (f : Flash S) (jwt : Text) (s : S)
    → Laws f
    → (write_hub_jwt f jwt s).0 ≡ true
    → f.opens hub_namespace false s ≡ true
    → read_hub_jwt f (write_hub_jwt f jwt s).1 ≡ some (some jwt)
read_hub_jwt-write f jwt s laws w r = read-write_hub_jwt f laws jwt s w r

-- Neither the write of the token nor a save of Wi-Fi credentials changes what is stored of the identity,
-- whether it goes through or not.
pub identity_apart :
    {S : Type 0} (f : Flash S) (jwt key : Text) (c : WifiCredentials) (s : S)
    → Laws f
    → (key ≡ key_device_id) ⊎ (key ≡ key_hub_secret)
    → (f.get_str hub_namespace key (write_hub_jwt f jwt s).1 ≡ f.get_str hub_namespace key s)
      × (f.get_str hub_namespace key (save f c s).1 ≡ f.get_str hub_namespace key s)
identity_apart f jwt key c s laws k =
    (write_hub_jwt-other f laws jwt key s (identity-ne key k), save-other f laws c key s)
