-- ===== src/Provisioning/Run/Stored.antt =====
-- What stands in the store when `run` returns a hub: src/wifi_prov.rs.
use hub_core.Base.{◌≡◌, ◌≢◌, refl, Bool, true, false, List, [], ◌∷◌, arith, Bool-cases, inl, inr}
use hub_core.Base.Text.{Text}
use hub_core.Base.Result.{Run, Result, ok, err, panic}
use hub_core.Probe.Scan.{scan_probe_candidates}
use hub_core.Provisioning.Credentials.{
  WifiCredentials, default, PendingCredentialsState, complete, waiting_for_password,
  waiting_for_ssid, empty, next_pending_credentials_state,
}
use hub_core.Provisioning.ProbeList.{SetupProbe}
use hub_core.Ble.Setup.{discover_setup_probes}
use hub_core.Net.Sntp.{SyncResult, synced, not_started, timed_out, get_sync_sntp}
use hub_core.Net.Wifi.{Radio, WifiError, connect_for_provisioning}
use hub_core.Storage.Flash.{Flash, Laws, HasRoom}
use hub_core.Storage.Identity.{hub_namespace}
use hub_core.Storage.WifiStore.{wifi_namespace, key_ssid, key_pass, then_password, save}
use hub_core.Storage.Reload.{WifiSaved, save-WifiSaved, WifiSaved-other}
use hub_core.Grpc.{Server, Wire}
use hub_core.Claim.{AuthService, World, Boot, ProvisionError, after_sync, claim_hub_after_time_sync}
use hub_core.Claim.Again.{Settled, provision_hub-Settled}
use hub_core.Claim.Kept.{claim_hub_after_time_sync-keeps}
use hub_core.Provisioning.Run.{
  status_waiting, status_probe_scan_started, status_claim_ok, status_wifi_ok, ProvisionedHub, Tick,
  Prov, Outcome, waiting, provisioned, not_advertised, panicked, notify_status, probes_or_none,
  receive, hand_over, after_claim, save_and_claim, after_wifi, attempt, look, round, then_rounds,
  rounds, run,
}

-- The store holds the hub's credentials, its identity and its token.
pub record InStore {S : Type 0} (f : Flash S) (h : ProvisionedHub) (s : S) : Type 0 where
  pub credentials_there : WifiSaved f h.credentials s
  pub identity_there : Settled f (h.hub_device_id, h.jwt) s

-- It does, if a hub is returned.
abbrev pub Handed : {S : Type 0} → Flash S → Outcome → S → Type 0
Handed f waiting s = Unit
Handed f (provisioned h) s = InStore f h s
Handed f not_advertised s = Unit
Handed f panicked s = Unit

module _ {S W : Type 0} (f : Flash S) (service : AuthService W) (server : Server) (laws : Laws f)
    (room : HasRoom f) where
  abbrev Stored : Outcome × Prov S W → Type 0
  Stored p = Handed f p.0 p.1.world.store

  save_goes_through : (c : WifiCredentials) (s : S) → (save f c s).0 ≡ true
  unfolding save
  save_goes_through c s = rw (room.all_open wifi_namespace true s) (
      let first = f.set_str wifi_namespace key_ssid c.ssid s in
      second first.0 first.1 (room.all_written wifi_namespace key_ssid c.ssid s))
    where
      second : (done : Bool) (t : S) → done ≡ true → (then_password f c.password (done, t)).0 ≡ true
      second true t e = room.all_written wifi_namespace key_pass c.password t
      second false t e = absurd (ground arith)

  after_sync-Settled :
      (r : SyncResult) (b : Boot) (w : World S W) (c : Text × Text)
      → (after_sync f service r b w).0 ≡ ok c
      → Settled f c (after_sync f service r b w).1.store
  unfolding after_sync
  after_sync-Settled (synced k) b w c h = provision_hub-Settled f service laws b w c h
  after_sync-Settled not_started b w c h = absurd (ground arith)
  after_sync-Settled timed_out b w c h = absurd (ground arith)

  claim-Settled :
      (b : Boot) (w : World S W) (c : Text × Text)
      → (claim_hub_after_time_sync f service b w).0 ≡ ok c
      → Settled f c (claim_hub_after_time_sync f service b w).1.store
  unfolding claim_hub_after_time_sync
  claim-Settled b w c h =
      after_sync-Settled (get_sync_sntp b.sntp_starts b.sync_completed).0 b w c h

  hand_over-Stored :
      (creds : WifiCredentials) (c : Text × Text) (r : Run (List SetupProbe)) (s : Prov S W)
      → WifiSaved f creds s.world.store
      → Settled f c s.world.store
      → Stored (hand_over f service server creds c r s)
  unfolding hand_over
  hand_over-Stored creds c (ok probes) s w v = record { credentials_there = w; identity_there = v }
  hand_over-Stored creds c (err x) s w v = elim x [ ]
  hand_over-Stored creds c panic s w v = tt

  after_claim-Stored :
      (t : Tick) (creds : WifiCredentials) (r : Result ProvisionError (Text × Text)) (s : Prov S W)
      → WifiSaved f creds s.world.store
      → ((c : Text × Text) → r ≡ ok c → Settled f c s.world.store)
      → Stored (after_claim f service server t creds r s)
  unfolding after_claim
  after_claim-Stored t creds (ok c) s w v =
      hand_over-Stored creds c
        (probes_or_none
          (discover_setup_probes t.device_at (scan_probe_candidates t.adverts t.scan_ends_well)))
        (notify_status status_probe_scan_started (notify_status status_claim_ok s)) w (v c refl)
  after_claim-Stored t creds (err e) s w v = tt
  after_claim-Stored t creds panic s w v = tt

  spaces-ne : wifi_namespace ≢ hub_namespace
  spaces-ne e = ground arith

  after_wifi-Stored :
      (t : Tick) (creds : WifiCredentials) (r : Result WifiError (Unit {0})) (s : Prov S W)
      → Stored (after_wifi f service server t creds r s)
  unfolding after_wifi save_and_claim
  after_wifi-Stored t creds (ok u) s =
      let written = save f creds s.world.store in
      let w : World S W = record s.world { store = written.1 } in
      let called = claim_hub_after_time_sync f service t.boot w in
      let there =
        save-WifiSaved f laws creds s.world.store (save_goes_through creds s.world.store) in
      let still =
        claim_hub_after_time_sync-keeps f service (WifiSaved f creds)
          (λ key value s'. WifiSaved-other f laws creds hub_namespace key value s' spaces-ne) t.boot
          w there in
      after_claim-Stored t creds called.0
        (record (notify_status status_wifi_ok s) { world = called.1 }) still
        (λ c e. claim-Settled t.boot w c e)
  after_wifi-Stored t creds (err e) s = elim (Bool-cases t.advertises) [
    | inl again ↦ rw again tt
    | inr shut ↦ rw shut tt
  ]
  after_wifi-Stored t creds panic s = tt

  look-Stored :
      (t : Tick) (state : PendingCredentialsState) (s : Prov S W)
      → Stored (look f service server t state s)
  unfolding look attempt
  look-Stored t (complete creds) s =
      let called = connect_for_provisioning t.driver creds.ssid s.radio in
      after_wifi-Stored t creds called.0 (record s { radio = called.1 })
  look-Stored t (waiting_for_password ssid) s = tt
  look-Stored t waiting_for_ssid s = tt
  look-Stored t empty s = tt

  round-Stored : (t : Tick) (s : Prov S W) → Stored (round f service server t s)
  unfolding round
  round-Stored t s =
      let next = next_pending_credentials_state (receive t.writes s.pending) in
      look-Stored t next.0 (record s { pending = next.1 })

  then_rounds-Stored :
      (q : Outcome × Prov S W) (k : Prov S W → Outcome × Prov S W)
      → Stored q
      → ((s : Prov S W) → Stored (k s))
      → Stored (then_rounds f service server q k)
  then_rounds-Stored (waiting, s) k v rest = rest s
  then_rounds-Stored (provisioned h, s) k v rest = v
  then_rounds-Stored (not_advertised, s) k v rest = tt
  then_rounds-Stored (panicked, s) k v rest = tt

  rounds-Stored : (ts : List Tick) (s : Prov S W) → Stored (rounds f service server ts s)
  unfolding rounds
  rounds-Stored [] s = tt
  rounds-Stored (t ∷ ts) s =
      then_rounds-Stored (round f service server t s) (λ s'. rounds f service server ts s')
        (round-Stored t s) (λ s'. rounds-Stored ts s')

  pub run-Stored :
      (advertises : Bool) (ticks : List Tick) (world : World S W) (wire : Wire) (radio : Radio)
      → Stored (run f service server advertises ticks world wire radio)
  unfolding run
  run-Stored true ticks world wire radio = rounds-Stored ticks (record {
    world = world;
    wire = wire;
    radio = radio;
    pending = default;
    status = (status_waiting, false) ∷ [];
    probes_value = [];
  })
  run-Stored false ticks world wire radio = tt
