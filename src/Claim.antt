-- ===== src/Claim.antt =====
-- src/auth.rs, `claim_hub_token`, and src/main.rs, `provision_hub` and `claim_hub_after_time_sync`:
-- the identity and the token with which the hub starts.
pub mod Seeded
pub mod Again
pub mod Kept
pub mod Total
pub mod Spent
pub mod LockedOut
pub mod Errors
pub mod Tests
use hub_core.Base.{ℕ, ◌+◌, Bool, true, false, not, List, [], ◌∷◌, Option, none, some, if◌then◌else◌}
use hub_core.Base.Text.{Text}
use hub_core.Base.Result.{Result, ok, err, panic}
use hub_core.Net.Sntp.{SyncResult, synced, not_started, timed_out, get_sync_sntp}
use hub_core.Storage.Flash.{Flash}
use hub_core.Storage.Identity.{
  load_or_generate_creds, read_hub_jwt, write_hub_jwt, seed_jwt_from_env,
}

-- The codes of a gRPC status that the hub tells apart.
pub data Code : Type 0 where
  failed_precondition other_code : Code

-- What the channel and the call of `auth.v2.AuthService` come to.
pub data Claimed : Type 0 where
  unreachable : Claimed
  refused : Code → Claimed
  token : Text → Claimed

-- The service that answers the claim of an identifier and its secret, over a state of its own.
abbrev pub AuthService : Type 0 → Type 0
AuthService W = Text → Text → W → Claimed × W

pub data ClaimError : Type 0 where
  not_connected already_claimed rpc_failed : ClaimError

-- The store of the hub, the service, and how often the service was called.
pub record World (S W : Type 0) : Type 0 where
  pub store : S
  pub server : W
  pub claims : ℕ

unfoldable pub claim_result : Claimed → Result ClaimError Text
claim_result unreachable = err not_connected
claim_result (token jwt) = ok jwt
claim_result (refused failed_precondition) = err already_claimed
claim_result (refused other_code) = err rpc_failed

unfoldable pub claim_hub_token :
    {S W : Type 0} → AuthService W → Text → Text → World S W → Result ClaimError Text × World S W
unfolding claim_result
claim_hub_token service device_id hub_secret w =
    let (answer, server') = service device_id hub_secret w.server in
    (claim_result answer, record w { server = server'; claims = w.claims + 1 })

-- What one boot brings along: the build's values, whether a runtime can be built, and how SNTP goes.
pub record Boot : Type 0 where
  pub build_device_id : Text
  pub build_hub_secret : Text
  pub hub_token : Option Text
  pub runtime_builds : Bool
  pub sntp_starts : Bool
  pub sync_completed : ℕ → Bool

pub data ProvisionError : Type 0 where
  no_creds token_not_seeded token_unreadable no_runtime token_not_written no_time : ProvisionError
  claim_failed : ClaimError → ProvisionError

abbrev pub Provisioned : Type 0 → Type 0 → Type 0
Provisioned S W = Result ProvisionError (Text × Text) × World S W

module _ {S W : Type 0} (f : Flash S) (service : AuthService W) where
  -- A write of the token, with the error for a write that fails.
  abbrev pub token_kept : Text → Text → ProvisionError → World S W → Bool × S → Provisioned S W
  token_kept device_id jwt e w (true, s) = (ok (device_id, jwt), record w { store = s })
  token_kept device_id jwt e w (false, s) = (err e, record w { store = s })

  unfoldable pub persist_claimed : Text → Result ClaimError Text × World S W → Provisioned S W
  persist_claimed device_id (ok jwt, w) =
      token_kept device_id jwt token_not_written w (write_hub_jwt f jwt w.store)
  persist_claimed device_id (err e, w) = (err (claim_failed e), w)
  persist_claimed device_id (panic, w) = (panic, w)

  -- From what `read_hub_jwt` gives.
  unfoldable pub from_stored :
      Bool → Text × Text → Option (Option Text) → World S W → Provisioned S W
  unfolding claim_hub_token persist_claimed
  from_stored builds c none w = (err token_unreadable, w)
  from_stored builds c (some (some jwt)) w = (ok (c.0, jwt), w)
  from_stored builds c (some none) w =
      if not builds
      then (err no_runtime, w)
      else persist_claimed c.0 (claim_hub_token service c.0 c.1 w)

  -- The token of the build comes before the one that is stored.
  unfoldable pub with_token : Option Text → Bool → Text × Text → World S W → Provisioned S W
  unfolding from_stored read_hub_jwt
  with_token (some dev_token) builds c w =
      token_kept c.0 dev_token token_not_seeded w (seed_jwt_from_env f dev_token w.store)
  with_token none builds c w = from_stored builds c (read_hub_jwt f w.store) w

  unfoldable pub with_creds :
      Option Text → Bool → Option (Text × Text) → World S W → Provisioned S W
  unfolding with_token
  with_creds hub_token builds none w = (err no_creds, w)
  with_creds hub_token builds (some c) w = with_token hub_token builds c w

  unfoldable pub provision_hub : Boot → World S W → Provisioned S W
  unfolding with_creds load_or_generate_creds
  provision_hub b w =
      let (creds, s) = load_or_generate_creds f b.build_device_id b.build_hub_secret w.store in
      with_creds b.hub_token b.runtime_builds creds (record w { store = s })

  unfoldable pub after_sync : SyncResult → Boot → World S W → Provisioned S W
  unfolding provision_hub
  after_sync (synced attempt) b w = provision_hub b w
  after_sync not_started b w = (err no_time, w)
  after_sync timed_out b w = (err no_time, w)

  unfoldable pub claim_hub_after_time_sync : Boot → World S W → Provisioned S W
  unfolding after_sync get_sync_sntp
  claim_hub_after_time_sync b w = after_sync (get_sync_sntp b.sntp_starts b.sync_completed).0 b w

  -- What each of a run of boots comes to.
  unfoldable pub boots : List Boot → World S W → List (Result ProvisionError (Text × Text))
  boots [] w = []
  boots (b ∷ bs) w = let (r, w') = claim_hub_after_time_sync b w in r ∷ boots bs w'
