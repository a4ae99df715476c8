-- ===== src/Claim/Total.antt =====
-- No boot panics: src/main.rs, `claim_hub_after_time_sync`.
use hub_core.Base.{◌≢◌, refl, Bool, true, false, Option, none, some, arith}
use hub_core.Base.Text.{Text}
use hub_core.Base.Result.{Result, ok, err, panic}
use hub_core.Net.Sntp.{SyncResult, synced, not_started, timed_out, get_sync_sntp}
use hub_core.Storage.Flash.{Flash}
use hub_core.Storage.Identity.{
  load_or_generate_creds, read_hub_jwt, write_hub_jwt, seed_jwt_from_env,
}
use hub_core.Claim.{
  AuthService, Claimed, unreachable, refused, token, failed_precondition, other_code, World, Boot,
  ClaimError, ProvisionError, token_not_written, token_not_seeded, token_kept, claim_result,
  claim_hub_token, persist_claimed, from_stored, with_token, with_creds, provision_hub, after_sync,
  claim_hub_after_time_sync,
}

claim_result-ne-panic : (a : Claimed) → claim_result a ≢ panic
unfolding claim_result
claim_result-ne-panic unreachable e = ground arith
claim_result-ne-panic (token jwt) e = ground arith
claim_result-ne-panic (refused failed_precondition) e = ground arith
claim_result-ne-panic (refused other_code) e = ground arith

module _ {S W : Type 0} (f : Flash S) (service : AuthService W) where
  token_kept-ne-panic :
      (id jwt : Text) (x : ProvisionError) (w : World S W) (p : Bool × S)
      → (token_kept f service id jwt x w p).0 ≢ panic
  token_kept-ne-panic id jwt x w (true, s) e = ground arith
  token_kept-ne-panic id jwt x w (false, s) e = ground arith

  persist_claimed-ne-panic :
      (id : Text) (r : Result ClaimError Text) (w : World S W)
      → r ≢ panic
      → (persist_claimed f service id (r, w)).0 ≢ panic
  unfolding persist_claimed
  persist_claimed-ne-panic id (ok jwt) w n e =
      token_kept-ne-panic id jwt token_not_written w (write_hub_jwt f jwt w.store) e
  persist_claimed-ne-panic id (err x) w n e = ground arith
  persist_claimed-ne-panic id panic w n e = n refl

  from_stored-ne-panic :
      (builds : Bool) (c : Text × Text) (o : Option (Option Text)) (w : World S W)
      → (from_stored f service builds c o w).0 ≢ panic
  unfolding from_stored claim_hub_token
  from_stored-ne-panic builds c none w e = ground arith
  from_stored-ne-panic builds c (some (some jwt)) w e = ground arith
  from_stored-ne-panic false c (some none) w e = ground arith
  from_stored-ne-panic true c (some none) w e =
      let called = claim_hub_token service c.0 c.1 w in
      persist_claimed-ne-panic c.0 called.0 called.1
        (claim_result-ne-panic (service c.0 c.1 w.server).0) e

  with_creds-ne-panic :
      (hub_token : Option Text) (builds : Bool) (creds : Option (Text × Text)) (w : World S W)
      → (with_creds f service hub_token builds creds w).0 ≢ panic
  unfolding with_creds with_token
  with_creds-ne-panic hub_token builds none w e = ground arith
  with_creds-ne-panic none builds (some c) w e =
      from_stored-ne-panic builds c (read_hub_jwt f w.store) w e
  with_creds-ne-panic (some jwt) builds (some c) w e =
      token_kept-ne-panic c.0 jwt token_not_seeded w (seed_jwt_from_env f jwt w.store) e

  after_sync-ne-panic :
      (r : SyncResult) (b : Boot) (w : World S W) → (after_sync f service r b w).0 ≢ panic
  unfolding after_sync provision_hub
  after_sync-ne-panic (synced k) b w e =
      let loaded = load_or_generate_creds f b.build_device_id b.build_hub_secret w.store in
      with_creds-ne-panic b.hub_token b.runtime_builds loaded.0 (record w { store = loaded.1 }) e
  after_sync-ne-panic not_started b w e = ground arith
  after_sync-ne-panic timed_out b w e = ground arith

  pub claim_hub_after_time_sync-ne-panic :
      (b : Boot) (w : World S W) → (claim_hub_after_time_sync f service b w).0 ≢ panic
  unfolding claim_hub_after_time_sync
  claim_hub_after_time_sync-ne-panic b w =
      after_sync-ne-panic (get_sync_sntp b.sntp_starts b.sync_completed).0 b w
