-- ===== src/Claim/Errors.antt =====
-- The error for a hub that was claimed before: src/auth.rs, `AlreadyClaimed`, and src/main.rs,
-- `provision_hub`.
use hub_core.Base.{◌≡◌, ◌↔◌, ◌≢◌, refl, Bool, true, false, Option, none, some, arith}
use hub_core.Base.Text.{Text}
use hub_core.Base.Result.{Result, ok, err, panic}
use hub_core.Storage.Flash.{Flash}
use hub_core.Storage.Identity.{
  load_or_generate_creds, read_hub_jwt, write_hub_jwt, seed_jwt_from_env,
}
use hub_core.Claim.{
  AuthService, Claimed, unreachable, refused, token, failed_precondition, other_code, World, Boot,
  ClaimError, already_claimed, ProvisionError, token_not_written, token_not_seeded, claim_failed,
  token_kept, claim_result, persist_claimed, from_stored, with_token, with_creds, provision_hub,
  claim_hub_token,
}

module _ {S W : Type 0} (f : Flash S) (service : AuthService W) where
  token_kept-ne-claim_failed :
      (id jwt : Text) (e : ProvisionError) (w : World S W) (p : Bool × S) (x : ClaimError)
      → e ≢ claim_failed x
      → (token_kept f service id jwt e w p).0 ≢ err (claim_failed x)
  token_kept-ne-claim_failed id jwt e w (true, s) x n h = ground arith
  token_kept-ne-claim_failed id jwt e w (false, s) x n h = n (ground arith)

  claim_result-already_claimed :
      (a : Claimed) → claim_result a ≡ err already_claimed → a ≡ refused failed_precondition
  unfolding claim_result
  claim_result-already_claimed unreachable h = absurd (ground arith)
  claim_result-already_claimed (token jwt) h = absurd (ground arith)
  claim_result-already_claimed (refused failed_precondition) h = refl
  claim_result-already_claimed (refused other_code) h = absurd (ground arith)

  persist_claimed-failed :
      (id : Text) (r : Result ClaimError Text) (w : World S W) (x : ClaimError)
      → (persist_claimed f service id (r, w)).0 ≡ err (claim_failed x)
      → r ≡ err x
  unfolding persist_claimed
  persist_claimed-failed id (ok jwt) w x h = absurd (
      token_kept-ne-claim_failed id jwt token_not_written w (write_hub_jwt f jwt w.store) x
        (λ e. ground arith) h)
  persist_claimed-failed id (err e) w x h = ground arith
  persist_claimed-failed id panic w x h = absurd (ground arith)

  -- The service was asked, and refused for this reason.
  abbrev pub Refused : Boot → World S W → Text × Text → Type 0
  Refused b w c =
      let loaded = load_or_generate_creds f b.build_device_id b.build_hub_secret w.store in
      (b.hub_token ≡ none)
      × (b.runtime_builds ≡ true)
      × (loaded.0 ≡ some c)
      × (read_hub_jwt f loaded.1 ≡ some none)
      × ((service c.0 c.1 w.server).0 ≡ refused failed_precondition)

  from_stored-already_claimed :
      (builds : Bool) (c : Text × Text) (o : Option (Option Text)) (w : World S W)
      → (from_stored f service builds c o w).0 ≡ err (claim_failed already_claimed)
      → (builds ≡ true)
        × (o ≡ some none)
        × ((service c.0 c.1 w.server).0 ≡ refused failed_precondition)
  unfolding from_stored claim_hub_token
  from_stored-already_claimed builds c none w h = absurd (ground arith)
  from_stored-already_claimed builds c (some (some jwt)) w h = absurd (ground arith)
  from_stored-already_claimed false c (some none) w h = absurd (ground arith)
  from_stored-already_claimed true c (some none) w h =
      let called = claim_hub_token service c.0 c.1 w in
      (
        refl,
        refl,
        claim_result-already_claimed (service c.0 c.1 w.server).0
            (persist_claimed-failed c.0 called.0 called.1 already_claimed h),
      )

  with_creds-already_claimed :
      (hub_token : Option Text) (builds : Bool) (creds : Option (Text × Text)) (w : World S W)
      → (with_creds f service hub_token builds creds w).0 ≡ err (claim_failed already_claimed)
      → (c : Text × Text) × (hub_token ≡ none)
        × (builds ≡ true)
        × (creds ≡ some c)
        × (read_hub_jwt f w.store ≡ some none)
        × ((service c.0 c.1 w.server).0 ≡ refused failed_precondition)
  unfolding with_creds with_token
  with_creds-already_claimed hub_token builds none w h = absurd (ground arith)
  with_creds-already_claimed (some jwt) builds (some c) w h = absurd (
      token_kept-ne-claim_failed c.0 jwt token_not_seeded w (seed_jwt_from_env f jwt w.store)
        already_claimed (λ e. ground arith) h)
  with_creds-already_claimed none builds (some c) w h =
      let (built, absent, said) =
        from_stored-already_claimed builds c (read_hub_jwt f w.store) w h in
      (c, refl, built, refl, absent, said)

  Refused-already_claimed :
      (b : Boot) (w : World S W) (c : Text × Text)
      → Refused b w c
      → (provision_hub f service b w).0 ≡ err (claim_failed already_claimed)
  unfolding provision_hub with_creds with_token from_stored claim_hub_token persist_claimed
      claim_result
  Refused-already_claimed b w c (n, built, got, absent, said) =
      rw (n, built, got, absent, said) refl

  already_claimed-Refused :
      (b : Boot) (w : World S W)
      → (provision_hub f service b w).0 ≡ err (claim_failed already_claimed)
      → (c : Text × Text) × Refused b w c
  unfolding provision_hub
  already_claimed-Refused b w h =
      let loaded = load_or_generate_creds f b.build_device_id b.build_hub_secret w.store in
      let (c, n, built, got, absent, said) =
        with_creds-already_claimed b.hub_token b.runtime_builds loaded.0
          (record w { store = loaded.1 }) h in
      (c, (n, built, got, absent, said))

-- `provision_hub` ends with `AlreadyClaimed` exactly if the build brings no token, the identity is there,
-- no token is stored behind it, and the service refuses the claim of that identity with the code
-- FAILED_PRECONDITION.
pub provision_hub-already_claimed_iff :
    {S W : Type 0} (f : Flash S) (service : AuthService W) (b : Boot) (w : World S W)
    → ((provision_hub f service b w).0 ≡ err (claim_failed already_claimed))
      ↔ ((c : Text × Text) × Refused f service b w c)
provision_hub-already_claimed_iff f service b w =
    (already_claimed-Refused f service b w, λ p. Refused-already_claimed f service b w p.0 p.1)
