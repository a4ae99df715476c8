-- ===== src/Claim/Spent.antt =====
-- A claim that was granted and whose token was not kept: src/auth.rs and src/main.rs,
-- `provision_hub`.
use hub_core.Base.{◌≡◌, ◌≢◌, refl, Bool, true, false, List, [], ◌∷◌, All, none, some, arith}
use hub_core.Base.Text.{Text}
use hub_core.Base.Result.{Result, ok, err, panic}
use hub_core.Net.Sntp.{SyncResult, synced, not_started, timed_out, get_sync_sntp}
use hub_core.Storage.Flash.{Flash, Laws}
use hub_core.Storage.Identity.{read_hub_jwt}
use hub_core.Claim.{
  AuthService, Claimed, unreachable, refused, token, World, Boot, ClaimError, claim_result,
  persist_claimed, from_stored, with_token, with_creds, provision_hub, claim_hub_token, after_sync,
  claim_hub_after_time_sync, boots,
}
use hub_core.Claim.Seeded.{Seeded, load_or_generate_creds_of_stored}

-- `auth.v2.ClaimHubToken` is claim-once: `taken` says whether the claim of an identifier is used up, which
-- a token that was given out does, and no call undoes.
pub record ClaimOnce {W : Type 0} (service : AuthService W) (taken : Text → W → Bool) : Type 0 where
  pub taken_by_token :
      (id secret jwt : Text) (s : W)
      → (service id secret s).0 ≡ token jwt
      → taken id (service id secret s).1 ≡ true
  pub no_second_token :
      (id secret jwt : Text) (s : W) → taken id s ≡ true → (service id secret s).0 ≢ token jwt
  pub still_taken :
      (id id' secret' : Text) (s : W)
      → taken id s ≡ true
      → taken id (service id' secret' s).1 ≡ true

-- The claim is used up, and the token is not there.
pub record Spent {S W : Type 0} (f : Flash S) (taken : Text → W → Bool) (id : Text) (w : World S W)
    : Type 0 where
  pub secret : Text
  pub seeded : Seeded f (id, secret) w.store
  pub no_token : read_hub_jwt f w.store ≡ some none
  pub used_up : taken id w.server ≡ true

abbrev pub is_ok : {E A : Type 0} → Result E A → Bool
is_ok (ok a) = true
is_ok (err e) = false
is_ok panic = false

abbrev pub BringsNoToken : Boot → Type 0
BringsNoToken b = b.hub_token ≡ none

module _ {S W : Type 0} (f : Flash S) (service : AuthService W) (taken : Text → W → Bool)
    (laws : Laws f) (once : ClaimOnce service taken) (id : Text) where
  claim_result-not_ok :
      (a : Claimed) → ((jwt : Text) → a ≢ token jwt) → is_ok (claim_result a) ≡ false
  unfolding claim_result
  claim_result-not_ok unreachable n = refl
  claim_result-not_ok (refused code) n = ground arith
  claim_result-not_ok (token jwt) n = absurd (n jwt refl)

  persist_claimed-failed :
      (r : Result ClaimError Text) (w : World S W)
      → is_ok r ≡ false
      → (is_ok (persist_claimed f service id (r, w)).0 ≡ false)
        × ((persist_claimed f service id (r, w)).1 ≡ w)
  unfolding persist_claimed
  persist_claimed-failed (ok jwt) w h = absurd (ground arith)
  persist_claimed-failed (err e) w h = (refl, refl)
  persist_claimed-failed panic w h = (refl, refl)

  claim_hub_token-Spent :
      (secret : Text) (w : World S W)
      → Spent f taken id w
      → (is_ok (claim_hub_token service id secret w).0 ≡ false)
        × Spent f taken id (claim_hub_token service id secret w).1
  unfolding claim_hub_token
  claim_hub_token-Spent secret w v = (
    claim_result-not_ok (service id secret w.server).0
        (λ jwt. once.no_second_token id secret jwt w.server v.used_up),
    record {
      secret = v.secret;
      seeded = v.seeded;
      no_token = v.no_token;
      used_up = once.still_taken id id secret w.server v.used_up;
    },
  )

  from_stored-Spent :
      (builds : Bool) (secret : Text) (w : World S W)
      → Spent f taken id w
      → (is_ok (from_stored f service builds (id, secret) (some none) w).0 ≡ false)
        × Spent f taken id (from_stored f service builds (id, secret) (some none) w).1
  unfolding from_stored
  from_stored-Spent false secret w v = (refl, v)
  from_stored-Spent true secret w v =
      let called = claim_hub_token service id secret w in
      let (failed, spent) = claim_hub_token-Spent secret w v in
      let (failed', same) = persist_claimed-failed called.0 called.1 failed in
      (failed', rw same spent)

  provision_hub-Spent :
      (b : Boot) (w : World S W)
      → BringsNoToken b
      → Spent f taken id w
      → (is_ok (provision_hub f service b w).0 ≡ false)
        × Spent f taken id (provision_hub f service b w).1
  unfolding provision_hub with_creds with_token
  provision_hub-Spent b w n v =
      let loaded =
        load_or_generate_creds_of_stored f b.build_device_id b.build_hub_secret w.store
          (id, v.secret) laws v.seeded in
      rw (loaded, n, v.no_token) (from_stored-Spent b.runtime_builds v.secret w v)

  after_sync-Spent :
      (r : SyncResult) (b : Boot) (w : World S W)
      → BringsNoToken b
      → Spent f taken id w
      → (is_ok (after_sync f service r b w).0 ≡ false)
        × Spent f taken id (after_sync f service r b w).1
  unfolding after_sync
  after_sync-Spent (synced k) b w n v = provision_hub-Spent b w n v
  after_sync-Spent not_started b w n v = (refl, v)
  after_sync-Spent timed_out b w n v = (refl, v)

  pub boots-Spent :
      (bs : List Boot) (w : World S W)
      → All BringsNoToken bs
      → Spent f taken id w
      → All (λ r. is_ok r ≡ false) (boots f service bs w)
  unfolding boots claim_hub_after_time_sync
  boots-Spent [] w n v = tt
  boots-Spent (b ∷ bs) w (n, ns) v =
      let r = (get_sync_sntp b.sntp_starts b.sync_completed).0 in
      let (failed, v') = after_sync-Spent r b w n v in
      (failed, boots-Spent bs (after_sync f service r b w).1 ns v')
