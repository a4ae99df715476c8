-- ===== src/Provisioning/Run/Path.antt =====
-- The values that the status characteristic goes through: src/wifi_prov.rs, `run`.
use hub_core.Base.{◌≡◌, ◌≢◌, refl, ℕ, Bool, true, false, List, [], ◌∷◌, arith, Bool-cases, inl, inr}
use hub_core.Base.Text.{Text}
use hub_core.Base.Result.{Run, Result, ok, err, panic}
use hub_core.Ble.Link.{Device}
use hub_core.Net.Total.{connect_for_provisioning-ne-panic}
use hub_core.Claim.Total.{claim_hub_after_time_sync-ne-panic}
use hub_core.Probe.Scan.{ProbeCandidate, ScanError, scan_probe_candidates}
use hub_core.Provisioning.Credentials.{
  WifiCredentials, default, PendingCredentialsState, complete, waiting_for_password,
  waiting_for_ssid, empty, next_pending_credentials_state,
}
use hub_core.Provisioning.ProbeList.{SetupProbe}
use hub_core.Ble.Setup.{discover_setup_probes}
use hub_core.Ble.Total.{scan_probe_candidates-ne-panic}
use hub_core.Net.Wifi.{Radio, WifiError, connect_for_provisioning}
use hub_core.Storage.Flash.{Flash}
use hub_core.Storage.WifiStore.{save}
use hub_core.Grpc.{Server, Wire}
use hub_core.Claim.{AuthService, World, ProvisionError, claim_hub_after_time_sync}
use hub_core.Provisioning.Run.{
  status_waiting, status_wifi_ok, status_wifi_nok, status_claim_ok, status_claim_nok,
  status_probe_scan_started, status_probe_scan_done, Tick, Prov, Outcome, waiting, provisioned,
  not_advertised, panicked, notify_status, probes_or_none, receive, hand_over, after_claim,
  save_and_claim, after_wifi, attempt, look, round, then_rounds, rounds, run,
}

-- What an app may see of a loop that goes on, the newest value first: each attempt ends where it began.
pub data WaitingPath : List (ℕ × Bool) → Type 0 where
  begun : WaitingPath ((status_waiting, false) ∷ [])
  wifi_failed :
      {p : List (ℕ × Bool)}
      → WaitingPath p
      → WaitingPath ((status_waiting, false) ∷ (status_wifi_nok, true) ∷ p)
  claim_failed :
      {p : List (ℕ × Bool)}
      → WaitingPath p
      → WaitingPath
          ((status_waiting, false) ∷ (status_claim_nok, true) ∷ (status_wifi_ok, true) ∷ p)

-- What it may see behind the last attempt.
pub data DonePath : List (ℕ × Bool) → Type 0 where
  done :
      {p : List (ℕ × Bool)}
      → WaitingPath p
      → DonePath (
          (status_probe_scan_done, true)
          ∷ (status_probe_scan_started, true)
          ∷ (status_claim_ok, true)
          ∷ (status_wifi_ok, true)
          ∷ p)

-- The path that belongs to an outcome.
abbrev pub PathOf : Outcome → List (ℕ × Bool) → Type 0
PathOf waiting p = WaitingPath p
PathOf (provisioned h) p = DonePath p
PathOf not_advertised p = WaitingPath p
PathOf panicked p = ⊥

pub discover_setup_probes-ne-panic :
    (device_at : Text → Device) (r : Result ScanError (List ProbeCandidate))
    → r ≢ panic
    → discover_setup_probes device_at r ≢ panic
unfolding discover_setup_probes
discover_setup_probes-ne-panic device_at (ok cs) n e = ground arith
discover_setup_probes-ne-panic device_at (err x) n e = ground arith
discover_setup_probes-ne-panic device_at panic n e = n refl

pub probes_or_none-ne-panic :
    (r : Result ScanError (List SetupProbe)) → r ≢ panic → probes_or_none r ≢ panic
probes_or_none-ne-panic (ok ps) n e = ground arith
probes_or_none-ne-panic (err x) n e = ground arith
probes_or_none-ne-panic panic n e = n refl

module _ {S W : Type 0} (f : Flash S) (service : AuthService W) (server : Server) where
  abbrev Seen : Outcome × Prov S W → Type 0
  Seen p = PathOf p.0 p.1.status

  hand_over-Seen :
      (creds : WifiCredentials) (c : Text × Text) (r : Run (List SetupProbe)) (s : Prov S W)
      (p : List (ℕ × Bool))
      → r ≢ panic
      → WaitingPath p
      → s.status
        ≡ (status_probe_scan_started, true) ∷ (status_claim_ok, true) ∷ (status_wifi_ok, true) ∷ p
      → Seen (hand_over f service server creds c r s)
  unfolding hand_over
  hand_over-Seen creds c (ok probes) s p n v h = rw h (done v)
  hand_over-Seen creds c (err x) s p n v h = elim x [ ]
  hand_over-Seen creds c panic s p n v h = n refl

  after_claim-Seen :
      (t : Tick) (creds : WifiCredentials) (r : Result ProvisionError (Text × Text)) (s : Prov S W)
      (p : List (ℕ × Bool))
      → r ≢ panic
      → WaitingPath p
      → s.status ≡ (status_wifi_ok, true) ∷ p
      → Seen (after_claim f service server t creds r s)
  unfolding after_claim
  after_claim-Seen t creds (ok c) s p n v h =
      hand_over-Seen creds c
        (probes_or_none
          (discover_setup_probes t.device_at (scan_probe_candidates t.adverts t.scan_ends_well)))
        (notify_status status_probe_scan_started (notify_status status_claim_ok s)) p
        (probes_or_none-ne-panic
          (discover_setup_probes t.device_at (scan_probe_candidates t.adverts t.scan_ends_well))
          (discover_setup_probes-ne-panic t.device_at
            (scan_probe_candidates t.adverts t.scan_ends_well)
            (scan_probe_candidates-ne-panic t.adverts t.scan_ends_well)))
        v (rw h refl)
  after_claim-Seen t creds (err e) s p n v h = rw h (claim_failed v)
  after_claim-Seen t creds panic s p n v h = n refl

  after_wifi-Seen :
      (t : Tick) (creds : WifiCredentials) (r : Result WifiError (Unit {0})) (s : Prov S W)
      → r ≢ panic
      → WaitingPath s.status
      → Seen (after_wifi f service server t creds r s)
  unfolding after_wifi save_and_claim
  after_wifi-Seen t creds (ok u) s n v =
      let (saved, store') = save f creds s.world.store in
      let called = claim_hub_after_time_sync f service t.boot (record s.world { store = store' }) in
      after_claim-Seen t creds called.0
        (record (notify_status status_wifi_ok s) { world = called.1 }) s.status
        (claim_hub_after_time_sync-ne-panic f service t.boot (record s.world { store = store' })) v
        refl
  after_wifi-Seen t creds (err e) s n v = elim (Bool-cases t.advertises) [
    | inl again ↦ rw again (wifi_failed v)
    | inr shut ↦ rw shut (wifi_failed v)
  ]
  after_wifi-Seen t creds panic s n v = n refl

  look-Seen :
      (t : Tick) (state : PendingCredentialsState) (s : Prov S W)
      → WaitingPath s.status
      → Seen (look f service server t state s)
  unfolding look attempt
  look-Seen t (complete creds) s v =
      let called = connect_for_provisioning t.driver creds.ssid s.radio in
      after_wifi-Seen t creds called.0 (record s { radio = called.1 })
        (connect_for_provisioning-ne-panic t.driver creds.ssid s.radio) v
  look-Seen t (waiting_for_password ssid) s v = v
  look-Seen t waiting_for_ssid s v = v
  look-Seen t empty s v = v

  round-Seen : (t : Tick) (s : Prov S W) → WaitingPath s.status → Seen (round f service server t s)
  unfolding round
  round-Seen t s v =
      let next = next_pending_credentials_state (receive t.writes s.pending) in
      look-Seen t next.0 (record s { pending = next.1 }) v

  then_rounds-Seen :
      (q : Outcome × Prov S W) (k : Prov S W → Outcome × Prov S W)
      → Seen q
      → ((s : Prov S W) → WaitingPath s.status → Seen (k s))
      → Seen (then_rounds f service server q k)
  then_rounds-Seen (waiting, s) k v rest = rest s v
  then_rounds-Seen (provisioned h, s) k v rest = v
  then_rounds-Seen (not_advertised, s) k v rest = v
  then_rounds-Seen (panicked, s) k v rest = v

  rounds-Seen :
      (ts : List Tick) (s : Prov S W) → WaitingPath s.status → Seen (rounds f service server ts s)
  unfolding rounds
  rounds-Seen [] s v = v
  rounds-Seen (t ∷ ts) s v =
      then_rounds-Seen (round f service server t s) (λ s'. rounds f service server ts s')
        (round-Seen t s v) (λ s' w. rounds-Seen ts s' w)

-- Whatever is written and however the calls go, `run` does not panic, and the values of the status characteristic are a series of
-- attempts that each lead from WAITING over WIFI_NOK, or over WIFI_OK and CLAIM_NOK, back to WAITING, of
-- which only that last value is not notified; and a run that returns a hub ends with one attempt more, over
-- WIFI_OK, CLAIM_OK, SCAN_STARTED and SCAN_DONE.
pub run-PathOf :
    {S W : Type 0} (f : Flash S) (service : AuthService W) (server : Server) (advertises : Bool)
    (ticks : List Tick) (world : World S W) (wire : Wire) (radio : Radio)
    → let (outcome, s) = run f service server advertises ticks world wire radio in
      PathOf outcome s.status
unfolding run
run-PathOf f service server true ticks world wire radio =
    rounds-Seen f service server ticks
      (record {
        world = world;
        wire = wire;
        radio = radio;
        pending = default;
        status = (status_waiting, false) ∷ [];
        probes_value = [];
      })
      begun
run-PathOf f service server false ticks world wire radio = begun
