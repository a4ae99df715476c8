-- ===== src/Claim/Kept.antt =====
-- What a claim leaves as it is, outside the namespace `hub`: src/main.rs and src/persist.rs.
use hub_core.Base.{Bool, true, false, Option, none, some, Bool-cases, inl, inr}
use hub_core.Base.Text.{Text, text_eq}
use hub_core.Base.Result.{Result, ok, err, panic}
use hub_core.Net.Sntp.{SyncResult, synced, not_started, timed_out, get_sync_sntp}
use hub_core.Storage.Flash.{Flash}
use hub_core.Storage.Identity.{
  hub_namespace, key_device_id, key_hub_secret, key_jwt, then_secret, creds_of, seed_over,
  load_or_generate_creds, read_hub_jwt, write_hub_jwt, seed_jwt_from_env,
}
use hub_core.Claim.{
  AuthService, World, Boot, ClaimError, ProvisionError, token_not_written, token_not_seeded,
  token_kept, claim_hub_token, persist_claimed, from_stored, with_token, with_creds, provision_hub,
  after_sync, claim_hub_after_time_sync,
}

-- `P` holds of stores whatever is written into the namespace `hub`.
module _ {S W : Type 0} (f : Flash S) (service : AuthService W) (P : S → Type 0)
    (keep : (key value : Text) (s : S) → P s → P (f.set_str hub_namespace key value s).1) where
  then_secret-keeps : (id secret : Text) (p : Bool × S) → P p.1 → P (then_secret f id secret p).1
  then_secret-keeps id secret (false, s) h = h
  then_secret-keeps id secret (true, s) h = keep key_hub_secret secret s h

  creds_of-keeps :
      (id secret : Text) (i x : Option (Option Text)) (s : S)
      → P s
      → P (creds_of f id secret i x s).1
  creds_of-keeps id secret (some (some i)) (some (some x)) s h = h
  creds_of-keeps id secret (some (some i)) (some none) s h =
      then_secret-keeps id secret (f.set_str hub_namespace key_device_id id s)
        (keep key_device_id id s h)
  creds_of-keeps id secret (some none) (some x) s h =
      then_secret-keeps id secret (f.set_str hub_namespace key_device_id id s)
        (keep key_device_id id s h)
  creds_of-keeps id secret none x s h = h
  creds_of-keeps id secret (some none) none s h = h
  creds_of-keeps id secret (some (some i)) none s h = h

  load_or_generate_creds-keeps :
      (id secret : Text) (s : S) → P s → P (load_or_generate_creds f id secret s).1
  unfolding load_or_generate_creds
  load_or_generate_creds-keeps id secret s h = elim (Bool-cases (f.opens hub_namespace true s)) [
    | inr shut ↦ rw shut h
    | inl open_ns ↦ rw open_ns (
        creds_of-keeps id secret (f.get_str hub_namespace key_device_id s)
          (f.get_str hub_namespace key_hub_secret s) s h)
  ]

  write_hub_jwt-keeps : (jwt : Text) (s : S) → P s → P (write_hub_jwt f jwt s).1
  unfolding write_hub_jwt
  write_hub_jwt-keeps jwt s h = elim (Bool-cases (f.opens hub_namespace true s)) [
    | inr shut ↦ rw shut h
    | inl open_ns ↦ rw open_ns (keep key_jwt jwt s h)
  ]

  seed_over-keeps :
      (jwt : Text) (o : Option (Option Text)) (s : S) → P s → P (seed_over f jwt o s).1
  seed_over-keeps jwt none s h = h
  seed_over-keeps jwt (some none) s h = write_hub_jwt-keeps jwt s h
  seed_over-keeps jwt (some (some old)) s h = elim (Bool-cases (text_eq old jwt)) [
    | inl same ↦ rw same h
    | inr differ ↦ rw differ (write_hub_jwt-keeps jwt s h)
  ]

  token_kept-keeps :
      (id jwt : Text) (x : ProvisionError) (w : World S W) (p : Bool × S)
      → P p.1
      → P (token_kept f service id jwt x w p).1.store
  token_kept-keeps id jwt x w (true, s) h = h
  token_kept-keeps id jwt x w (false, s) h = h

  persist_claimed-keeps :
      (id : Text) (r : Result ClaimError Text) (w : World S W)
      → P w.store
      → P (persist_claimed f service id (r, w)).1.store
  unfolding persist_claimed
  persist_claimed-keeps id (ok jwt) w h =
      token_kept-keeps id jwt token_not_written w (write_hub_jwt f jwt w.store)
        (write_hub_jwt-keeps jwt w.store h)
  persist_claimed-keeps id (err x) w h = h
  persist_claimed-keeps id panic w h = h

  from_stored-keeps :
      (builds : Bool) (c : Text × Text) (o : Option (Option Text)) (w : World S W)
      → P w.store
      → P (from_stored f service builds c o w).1.store
  unfolding from_stored claim_hub_token
  from_stored-keeps builds c none w h = h
  from_stored-keeps builds c (some (some jwt)) w h = h
  from_stored-keeps false c (some none) w h = h
  from_stored-keeps true c (some none) w h =
      let called = claim_hub_token service c.0 c.1 w in
      persist_claimed-keeps c.0 called.0 called.1 h

  with_creds-keeps :
      (hub_token : Option Text) (builds : Bool) (creds : Option (Text × Text)) (w : World S W)
      → P w.store
      → P (with_creds f service hub_token builds creds w).1.store
  unfolding with_creds with_token seed_jwt_from_env
  with_creds-keeps hub_token builds none w h = h
  with_creds-keeps none builds (some c) w h =
      from_stored-keeps builds c (read_hub_jwt f w.store) w h
  with_creds-keeps (some jwt) builds (some c) w h =
      token_kept-keeps c.0 jwt token_not_seeded w (seed_jwt_from_env f jwt w.store)
        (seed_over-keeps jwt (read_hub_jwt f w.store) w.store h)

  after_sync-keeps :
      (r : SyncResult) (b : Boot) (w : World S W)
      → P w.store
      → P (after_sync f service r b w).1.store
  unfolding after_sync provision_hub
  after_sync-keeps (synced k) b w h =
      let loaded = load_or_generate_creds f b.build_device_id b.build_hub_secret w.store in
      with_creds-keeps b.hub_token b.runtime_builds loaded.0 (record w { store = loaded.1 })
        (load_or_generate_creds-keeps b.build_device_id b.build_hub_secret w.store h)
  after_sync-keeps not_started b w h = h
  after_sync-keeps timed_out b w h = h

  pub claim_hub_after_time_sync-keeps :
      (b : Boot) (w : World S W) → P w.store → P (claim_hub_after_time_sync f service b w).1.store
  unfolding claim_hub_after_time_sync
  claim_hub_after_time_sync-keeps b w h =
      after_sync-keeps (get_sync_sntp b.sntp_starts b.sync_completed).0 b w h
