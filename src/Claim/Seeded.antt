-- ===== src/Claim/Seeded.antt =====
-- A store that holds an identity: src/persist.rs.
use hub_core.Base.{
  ◌≡◌, ◌≢◌, ℕ, ap, inl, inr, true, Option, ◌∷◌, length, none, some, arith, Bool-cases,
}
use hub_core.Base.Text.{Text}
use hub_core.Storage.Flash.{Flash, Laws}
use hub_core.Storage.Identity.{
  hub_namespace, key_device_id, key_hub_secret, key_jwt, seed, creds_of, load_or_generate_creds,
  write_hub_jwt,
}
use hub_core.Storage.Kept.{stored, load_or_generate_creds-again, write_hub_jwt-other}

pub record Seeded {S : Type 0} (f : Flash S) (c : Text × Text) (s : S) : Type 0 where
  pub opens : f.opens hub_namespace true s ≡ true
  pub id_there : f.get_str hub_namespace key_device_id s ≡ some (some c.0)
  pub secret_there : f.get_str hub_namespace key_hub_secret s ≡ some (some c.1)

longer-ne : (b : ℕ) (bs : Text) → b ∷ bs ≢ bs
longer-ne b bs e = let same = ap length e in omega (arith, same)

module _ {S : Type 0} (f : Flash S) where
  seed-id :
      (id secret : Text) (s : S) (c : Text × Text) → (seed f id secret s).0 ≡ some c → c.0 ≡ id
  seed-id id secret s c h = ground arith

  -- What a call returns that does not return the build's identifier stands in the store.
  creds_of-stored :
      (id secret : Text) (i x : Option (Option Text)) (s : S) (c : Text × Text)
      → (creds_of f id secret i x s).0 ≡ some c
      → id ≢ c.0
      → (i ≡ some (some c.0)) × (x ≡ some (some c.1))
  creds_of-stored id secret (some (some i)) (some (some x)) s c h n = ground arith
  creds_of-stored id secret (some (some i)) (some none) s c h n =
      absurd (ground (arith, seed-id id secret s c))
  creds_of-stored id secret (some none) (some x) s c h n =
      absurd (ground (arith, seed-id id secret s c))
  creds_of-stored id secret none x s c h n = absurd (ground arith)
  creds_of-stored id secret (some none) none s c h n = absurd (ground arith)
  creds_of-stored id secret (some (some i)) none s c h n = absurd (ground arith)

  load_or_generate_creds-Seeded_other :
      (id secret : Text) (s : S) (c : Text × Text)
      → (load_or_generate_creds f id secret s).0 ≡ some c
      → id ≢ c.0
      → Seeded f c s
  unfolding load_or_generate_creds
  load_or_generate_creds-Seeded_other id secret s c h n =
      elim (Bool-cases (f.opens hub_namespace true s)) [
        | inr shut ↦ absurd (ground arith)
        | inl o ↦
            let (i, x) =
              creds_of-stored id secret (f.get_str hub_namespace key_device_id s)
                (f.get_str hub_namespace key_hub_secret s) s c (ground arith) n in
            record { opens = o; id_there = i; secret_there = x }
      ]

  pub load_or_generate_creds-Seeded :
      (id secret : Text) (s : S) (c : Text × Text)
      → Laws f
      → (load_or_generate_creds f id secret s).0 ≡ some c
      → Seeded f c (load_or_generate_creds f id secret s).1
  load_or_generate_creds-Seeded id secret s c laws h =
      let other : Text = 0 ∷ c.0 in
      let again = load_or_generate_creds-again f id secret other secret s c laws h in
      load_or_generate_creds-Seeded_other other secret (load_or_generate_creds f id secret s).1 c
        (ap (λ p. p.0) again) (longer-ne 0 c.0)

  pub load_or_generate_creds_of_stored :
      (id secret : Text) (s : S) (c : Text × Text)
      → Laws f
      → Seeded f c s
      → load_or_generate_creds f id secret s ≡ (some c, s)
  load_or_generate_creds_of_stored id secret s c laws v =
      stored f laws id secret id secret s c v.opens v.id_there v.secret_there

  pub write_hub_jwt-Seeded :
      (jwt : Text) (s : S) (c : Text × Text)
      → Laws f
      → Seeded f c s
      → Seeded f c (write_hub_jwt f jwt s).1
  unfolding write_hub_jwt
  write_hub_jwt-Seeded jwt s c laws v =
      let id = write_hub_jwt-other f laws jwt key_device_id s (λ e. ground arith) in
      let secret = write_hub_jwt-other f laws jwt key_hub_secret s (λ e. ground arith) in
      let kept = laws.opens_after hub_namespace key_jwt jwt hub_namespace true s v.opens in
      record { opens = ground arith; id_there = ground arith; secret_there = ground arith }
