-- ===== src/Claim/LockedOut.antt =====
-- A boot that was given a token and could not keep it: src/main.rs, `provision_hub`.
use hub_core.Base.{◌≡◌, refl, Bool, true, false, List, All, Option, none, some, arith}
use hub_core.Base.Text.{Text}
use hub_core.Base.Result.{Result, ok, err, panic}
use hub_core.Storage.Flash.{Flash, Laws}
use hub_core.Storage.Identity.{
  load_or_generate_creds, read_hub_jwt, write_hub_jwt, seed_jwt_from_env,
}
use hub_core.Claim.{
  failed_precondition, token_not_seeded, other_code, token_not_written, token_kept, AuthService,
  Claimed, unreachable, refused, token, World, Boot, ClaimError, ProvisionError, claim_result,
  persist_claimed, from_stored, with_token, with_creds, provision_hub, claim_hub_token, boots,
}
use hub_core.Claim.Seeded.{write_hub_jwt-Seeded, Seeded, load_or_generate_creds-Seeded}
use hub_core.Claim.Spent.{ClaimOnce, is_ok, BringsNoToken, boots-Spent}

module _ {S W : Type 0} (f : Flash S) (service : AuthService W) (taken : Text → W → Bool)
    (laws : Laws f) (once : ClaimOnce service taken) where
  token_kept-unwritten :
      (device_id jwt : Text) (e : ProvisionError) (w : World S W) (p : Bool × S)
      → (token_kept f service device_id jwt e w p).0 ≡ err token_not_written
      → (p.0 ≡ false)
        × (e ≡ token_not_written)
        × ((token_kept f service device_id jwt e w p).1 ≡ record w { store = p.1 })
  token_kept-unwritten device_id jwt e w (true, s) h = absurd (ground arith)
  token_kept-unwritten device_id jwt e w (false, s) h = ground arith

  persist_claimed-unwritten :
      (id : Text) (r : Result ClaimError Text) (w : World S W)
      → (persist_claimed f service id (r, w)).0 ≡ err token_not_written
      → (jwt : Text) × (r ≡ ok jwt)
        × ((persist_claimed f service id (r, w)).1
            ≡ record w { store = (write_hub_jwt f jwt w.store).1 })
  unfolding persist_claimed
  persist_claimed-unwritten id (ok jwt) w h =
      let (failed, same, final) =
        token_kept-unwritten id jwt token_not_written w (write_hub_jwt f jwt w.store) h in
      (jwt, refl, final)
  persist_claimed-unwritten id (err e) w h = absurd (ground arith)
  persist_claimed-unwritten id panic w h = absurd (ground arith)

  claim_result-token : (a : Claimed) (jwt : Text) → claim_result a ≡ ok jwt → a ≡ token jwt
  unfolding claim_result
  claim_result-token unreachable jwt h = absurd (ground arith)
  claim_result-token (refused failed_precondition) jwt h = absurd (ground arith)
  claim_result-token (refused other_code) jwt h = absurd (ground arith)
  claim_result-token (token t) jwt h = ground arith

  -- A claim behind which the token was not written was granted.
  claimed-unwritten :
      (id secret : Text) (w : World S W)
      → (persist_claimed f service id (claim_hub_token service id secret w)).0
        ≡ err token_not_written
      → Seeded f (id, secret) w.store
      → (taken id (persist_claimed f service id (claim_hub_token service id secret w)).1.server
          ≡ true)
        × Seeded f
            (id, secret)
            (persist_claimed f service id (claim_hub_token service id secret w)).1.store
  unfolding claim_hub_token
  claimed-unwritten id secret w h v =
      let called = claim_hub_token service id secret w in
      let (jwt, got, final) = persist_claimed-unwritten id called.0 called.1 h in
      let given = claim_result-token (service id secret w.server).0 jwt got in
      rw final (
        once.taken_by_token id secret jwt w.server given,
        write_hub_jwt-Seeded f jwt w.store (id, secret) laws v,
      )

  -- What such a boot leaves behind.
  Unkept : World S W → Type 0
  Unkept w = (c : Text × Text) × (taken c.0 w.server ≡ true) × Seeded f c w.store

  from_stored-unwritten :
      (builds : Bool) (c : Text × Text) (o : Option (Option Text)) (w : World S W)
      → Seeded f c w.store
      → (from_stored f service builds c o w).0 ≡ err token_not_written
      → Unkept (from_stored f service builds c o w).1
  unfolding from_stored Unkept
  from_stored-unwritten builds c none w v h = absurd (ground arith)
  from_stored-unwritten builds c (some (some jwt)) w v h = absurd (ground arith)
  from_stored-unwritten false c (some none) w v h = absurd (ground arith)
  from_stored-unwritten true c (some none) w v h =
      let (t, v') = claimed-unwritten c.0 c.1 w h v in (c, t, v')

  with_token-unwritten :
      (hub_token : Option Text) (builds : Bool) (c : Text × Text) (w : World S W)
      → Seeded f c w.store
      → (with_token f service hub_token builds c w).0 ≡ err token_not_written
      → Unkept (with_token f service hub_token builds c w).1
  unfolding with_token
  with_token-unwritten none builds c w v h =
      from_stored-unwritten builds c (read_hub_jwt f w.store) w v h
  with_token-unwritten (some jwt) builds c w v h =
      let (failed, same, final) =
        token_kept-unwritten c.0 jwt token_not_seeded w (seed_jwt_from_env f jwt w.store) h in
      absurd (ground arith)

  with_creds-unwritten :
      (hub_token : Option Text) (builds : Bool) (creds : Option (Text × Text)) (w : World S W)
      → ((a : Text × Text) → creds ≡ some a → Seeded f a w.store)
      → (with_creds f service hub_token builds creds w).0 ≡ err token_not_written
      → Unkept (with_creds f service hub_token builds creds w).1
  unfolding with_creds
  with_creds-unwritten hub_token builds none w v h = absurd (ground arith)
  with_creds-unwritten hub_token builds (some c) w v h =
      with_token-unwritten hub_token builds c w (v c refl) h

  provision_hub-unwritten :
      (b : Boot) (w : World S W)
      → (provision_hub f service b w).0 ≡ err token_not_written
      → Unkept (provision_hub f service b w).1
  unfolding provision_hub
  provision_hub-unwritten b w h =
      let loaded = load_or_generate_creds f b.build_device_id b.build_hub_secret w.store in
      with_creds-unwritten b.hub_token b.runtime_builds loaded.0 (record w { store = loaded.1 })
        (λ a e.
          load_or_generate_creds-Seeded f b.build_device_id b.build_hub_secret w.store a laws e)
        h

-- Where the service gives each identifier one token, and a boot ends because the token that it has just
-- been given could not be written, and so is not in the store, no later boot of a build that brings no
-- token ends well, however many follow.
pub boots_locked_out :
    {S W : Type 0} (f : Flash S) (service : AuthService W) (taken : Text → W → Bool) (b : Boot)
    (later : List Boot) (w : World S W)
    → Laws f
    → ClaimOnce service taken
    → All BringsNoToken later
    → (provision_hub f service b w).0 ≡ err token_not_written
    → read_hub_jwt f (provision_hub f service b w).1.store ≡ some none
    → All (λ r. is_ok r ≡ false) (boots f service later (provision_hub f service b w).1)
unfolding Unkept
boots_locked_out f service taken b later w laws once n h r =
    let (c, t, v) = provision_hub-unwritten f service taken laws once b w h in
    boots-Spent f service taken laws once c.0 later (provision_hub f service b w).1 n
      (record { secret = c.1; seeded = v; no_token = r; used_up = t })
