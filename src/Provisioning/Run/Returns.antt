-- ===== src/Provisioning/Run/Returns.antt =====
-- `run` returns once a pair of credentials works: src/wifi_prov.rs.
use hub_core.Base.{
  ◌≡◌, ◌≢◌, refl, ap, ◌∙◌, sym, ℕ, true, false, List, [], ◌∷◌, ◌++◌, none, some, arith,
}
use hub_core.Base.Text.{Text}
use hub_core.Base.Result.{Run, Result, ok, err, panic}
use hub_core.Probe.Scan.{scan_probe_candidates}
use hub_core.Provisioning.Credentials.{
  WifiCredentials, PendingWifiCredentials, default, PendingCredentialsState, complete,
  next_pending_credentials_state, text_written,
}
use hub_core.Provisioning.ProbeList.{SetupProbe}
use hub_core.Ble.Setup.{discover_setup_probes}
use hub_core.Ble.Total.{scan_probe_candidates-ne-panic}
use hub_core.Net.Wifi.{Radio, WifiError, connect_for_provisioning}
use hub_core.Storage.Flash.{Flash}
use hub_core.Storage.WifiStore.{save}
use hub_core.Grpc.{Server, Wire}
use hub_core.Claim.{AuthService, World, ProvisionError, claim_hub_after_time_sync}
use hub_core.Provisioning.Run.{
  status_waiting, status_probe_scan_started, status_claim_ok, status_wifi_ok, ProvisionedHub,
  ssid_written, password_written, Tick, Prov, Outcome, waiting, provisioned, not_advertised,
  panicked, notify_status, probes_or_none, receive, hand_over, after_claim, save_and_claim,
  after_wifi, attempt, look, round, then_rounds, rounds, run,
}
use hub_core.Provisioning.Run.Path.{discover_setup_probes-ne-panic, probes_or_none-ne-panic}

pair : Text → Text → WifiCredentials
pair ssid password = record { ssid = ssid; password = password }

-- Whatever was pending, a name and a password behind it are a pair.
receive-complete :
    (a b : List ℕ) (ssid password : Text) (p : PendingWifiCredentials)
    → text_written a ≡ some ssid
    → text_written b ≡ some password
    → next_pending_credentials_state (receive (ssid_written a ∷ password_written b ∷ []) p)
      ≡ (complete (pair ssid password), record p { ssid = none; password = none })
unfolding receive next_pending_credentials_state pair
receive-complete a b ssid password p ha hb = rw (ha, hb) refl

abbrev pub hub_of : Text → Text → Text × Text → List SetupProbe → ProvisionedHub
hub_of ssid password c probes = record {
  credentials = record { ssid = ssid; password = password };
  hub_device_id = c.0;
  jwt = c.1;
  setup_probes = probes;
}

module _ {S W : Type 0} (f : Flash S) (service : AuthService W) (server : Server) where
  -- The world in which the claim is made.
  abbrev pub saved_world : Text → Text → World S W → World S W
  saved_world ssid password w = record w {
    store = (save f (record { ssid = ssid; password = password }) w.store).1;
  }

  hand_over-provisioned :
      (ssid password : Text) (c : Text × Text) (r : Run (List SetupProbe)) (s : Prov S W)
      → r ≢ panic
      → (probes : List SetupProbe) × ((hand_over f service server (pair ssid password) c r s).0
          ≡ provisioned (hub_of ssid password c probes))
  unfolding hand_over pair
  hand_over-provisioned ssid password c (ok probes) s n = (probes, refl)
  hand_over-provisioned ssid password c (err x) s n = elim x [ ]
  hand_over-provisioned ssid password c panic s n = absurd (n refl)

  after_claim-provisioned :
      (t : Tick) (ssid password : Text) (r : Result ProvisionError (Text × Text)) (c : Text × Text)
      (s : Prov S W)
      → r ≡ ok c
      → (probes : List SetupProbe) × ((after_claim f service server t (pair ssid password) r s).0
          ≡ provisioned (hub_of ssid password c probes))
  unfolding after_claim
  after_claim-provisioned t ssid password (ok d) c s h =
      let same : d ≡ c = ground arith in
      let heard = scan_probe_candidates t.adverts t.scan_ends_well in
      rw same (
        hand_over-provisioned ssid password c
          (probes_or_none (discover_setup_probes t.device_at heard))
          (notify_status status_probe_scan_started (notify_status status_claim_ok s))
          (probes_or_none-ne-panic (discover_setup_probes t.device_at heard) (
            discover_setup_probes-ne-panic t.device_at heard
              (scan_probe_candidates-ne-panic t.adverts t.scan_ends_well))))
  after_claim-provisioned t ssid password (err e) c s h = absurd (ground arith)
  after_claim-provisioned t ssid password panic c s h = absurd (ground arith)

  after_wifi-provisioned :
      (t : Tick) (ssid password : Text) (r : Result WifiError (Unit {0})) (c : Text × Text)
      (s : Prov S W)
      → r ≡ ok tt
      → (claim_hub_after_time_sync f service t.boot (saved_world ssid password s.world)).0 ≡ ok c
      → (probes : List SetupProbe) × ((after_wifi f service server t (pair ssid password) r s).0
          ≡ provisioned (hub_of ssid password c probes))
  unfolding after_wifi save_and_claim pair
  after_wifi-provisioned t ssid password (ok u) c s h claimed =
      let called = claim_hub_after_time_sync f service t.boot (saved_world ssid password s.world) in
      after_claim-provisioned t ssid password called.0 c
        (record (notify_status status_wifi_ok s) { world = called.1 }) claimed
  after_wifi-provisioned t ssid password (err e) c s h claimed = absurd (ground arith)
  after_wifi-provisioned t ssid password panic c s h claimed = absurd (ground arith)

  round_found :
      (t : Tick) (s : Prov S W) {state : PendingCredentialsState × PendingWifiCredentials}
      → next_pending_credentials_state (receive t.writes s.pending) ≡ state
      → round f service server t s
        ≡ look f service server t state.0 (record s { pending = state.1 })
  unfolding round
  round_found t s h = ap (λ n. look f service server t n.0 (record s { pending = n.1 })) h

  round-provisioned :
      (t : Tick) (a b : List ℕ) (ssid password : Text) (c : Text × Text) (s : Prov S W)
      → t.writes ≡ ssid_written a ∷ password_written b ∷ []
      → text_written a ≡ some ssid
      → text_written b ≡ some password
      → (connect_for_provisioning t.driver ssid s.radio).0 ≡ ok tt
      → (claim_hub_after_time_sync f service t.boot (saved_world ssid password s.world)).0 ≡ ok c
      → (probes : List SetupProbe) × ((round f service server t s).0
          ≡ provisioned (hub_of ssid password c probes))
  unfolding look attempt pair
  round-provisioned t a b ssid password c s writes ha hb joins claimed =
      let found =
        ap (λ ws. next_pending_credentials_state (receive ws s.pending)) writes
        ∙ receive-complete a b ssid password s.pending ha hb in
      let waiting_s : Prov S W = record s {
        pending = record s.pending { ssid = none; password = none };
      } in
      let called = connect_for_provisioning t.driver ssid s.radio in
      let (probes, out) =
        after_wifi-provisioned t ssid password called.0 c (record waiting_s { radio = called.1 })
          joins claimed in
      (probes, ap (λ p. p.0) (round_found t s found) ∙ out)

  then_rounds_waiting :
      (q : Outcome × Prov S W) (k : Prov S W → Outcome × Prov S W)
      → q.0 ≡ waiting
      → then_rounds f service server q k ≡ k q.1
  then_rounds_waiting (waiting, s) k h = refl
  then_rounds_waiting (provisioned x, s) k h = absurd (ground arith)
  then_rounds_waiting (not_advertised, s) k h = absurd (ground arith)
  then_rounds_waiting (panicked, s) k h = absurd (ground arith)

  waiting_before :
      (q : Outcome × Prov S W) (k : Prov S W → Outcome × Prov S W)
      → (then_rounds f service server q k).0 ≡ waiting
      → q.0 ≡ waiting
  waiting_before (waiting, s) k h = refl
  waiting_before (provisioned x, s) k h = absurd (ground arith)
  waiting_before (not_advertised, s) k h = absurd (ground arith)
  waiting_before (panicked, s) k h = absurd (ground arith)

  -- A loop that still waits goes on from where it is.
  rounds-append :
      (earlier later : List Tick) (s : Prov S W)
      → (rounds f service server earlier s).0 ≡ waiting
      → rounds f service server (earlier ++ later) s
        ≡ rounds f service server later (rounds f service server earlier s).1
  unfolding rounds
  rounds-append [] later s h = refl
  rounds-append (t ∷ ts) later s h =
      let first = round f service server t s in
      let still = waiting_before first (λ s'. rounds f service server ts s') h in
      let onward = then_rounds_waiting first (λ s'. rounds f service server ts s') still in
      then_rounds_waiting first (λ s'. rounds f service server (ts ++ later) s') still
      ∙ rounds-append ts later first.1 (ap (λ p. p.0) (sym onward) ∙ h)
      ∙ ap (λ p. rounds f service server later p.1) (sym onward)

  then_rounds_provisioned :
      (q : Outcome × Prov S W) (k : Prov S W → Outcome × Prov S W) (h : ProvisionedHub)
      → q.0 ≡ provisioned h
      → (then_rounds f service server q k).0 ≡ provisioned h
  then_rounds_provisioned (waiting, s) k h e = absurd (ground arith)
  then_rounds_provisioned (provisioned x, s) k h e = e
  then_rounds_provisioned (not_advertised, s) k h e = absurd (ground arith)
  then_rounds_provisioned (panicked, s) k h e = absurd (ground arith)

  rounds-provisioned :
      (earlier later : List Tick) (t : Tick) (s : Prov S W) (h : ProvisionedHub)
      → (rounds f service server earlier s).0 ≡ waiting
      → (round f service server t (rounds f service server earlier s).1).0 ≡ provisioned h
      → (rounds f service server (earlier ++ t ∷ later) s).0 ≡ provisioned h
  unfolding rounds
  rounds-provisioned earlier later t s h still out =
      ap (λ p. p.0) (rounds-append earlier (t ∷ later) s still)
      ∙ then_rounds_provisioned (round f service server t (rounds f service server earlier s).1)
          (λ s'. rounds f service server later s') h out

-- However long `run` has waited, and whatever half of a pair is pending, it returns in the round in which it
-- finds a name and a password that were written behind one another, if the network is joined at the one
-- attempt and the claim ends well: with these credentials, and the identity and the token of the claim.
pub run-returns :
    {S W : Type 0} (f : Flash S) (service : AuthService W) (server : Server)
    (earlier later : List Tick) (t : Tick) (a b : List ℕ) (ssid password : Text) (c : Text × Text)
    (world : World S W) (wire : Wire) (radio : Radio)
    → (run f service server true earlier world wire radio).0 ≡ waiting
    → t.writes ≡ ssid_written a ∷ password_written b ∷ []
    → text_written a ≡ some ssid
    → text_written b ≡ some password
    → let s = (run f service server true earlier world wire radio).1 in
      (connect_for_provisioning t.driver ssid s.radio).0 ≡ ok tt
      → (claim_hub_after_time_sync f service t.boot
          (saved_world f service server ssid password s.world)).0
        ≡ ok c
      → (probes : List SetupProbe) × ((run f service server true
            (earlier ++ t ∷ later)
            world
            wire
            radio).0
          ≡ provisioned (hub_of ssid password c probes))
unfolding run
run-returns f service server earlier later t a b ssid password c world wire radio still writes ha hb
      joins claimed =
    let first : Prov _ _ = record {
      world = world;
      wire = wire;
      radio = radio;
      pending = default;
      status = (status_waiting, false) ∷ [];
      probes_value = [];
    } in
    let (probes, out) =
      round-provisioned f service server t a b ssid password c
        (rounds f service server earlier first).1 writes ha hb joins claimed in
    (
      probes,
      rounds-provisioned f service server earlier later t first (hub_of ssid password c probes)
          still out,
    )
