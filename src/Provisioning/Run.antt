-- ===== src/Provisioning/Run.antt =====
-- src/wifi_prov.rs, `run`: the loop that waits for credentials over BLE, tries them, claims the hub and
-- picks up the probes in setup mode. (The pauses and the log lines are left out.)
pub mod Path
pub mod Stored
pub mod Returns
pub mod Tests
use hub_core.Base.{
  ℕ, Bool, true, false, not, ◌&&◌, List, [], ◌∷◌, Option, none, some, if◌then◌else◌,
}
use hub_core.Base.Text.{Text}
use hub_core.Base.Result.{Run, Result, ok, err, panic}
use hub_core.Probe.Scan.{Advert, ScanError, scan_probe_candidates}
use hub_core.Provisioning.Credentials.{
  WifiCredentials, PendingWifiCredentials, default, PendingCredentialsState, complete,
  waiting_for_password, waiting_for_ssid, empty, next_pending_credentials_state, on_write_ssid,
  on_write_password,
}
use hub_core.Provisioning.ProbeList.{SetupProbe, encode_setup_probes}
use hub_core.Ble.Link.{Device}
use hub_core.Ble.Setup.{discover_setup_probes}
use hub_core.Net.Wifi.{Driver, Radio, WifiError, connect_for_provisioning}
use hub_core.Storage.Flash.{Flash}
use hub_core.Storage.WifiStore.{save}
use hub_core.Grpc.{Server, Wire}
use hub_core.Grpc.SetupAcks.{acknowledge_setup_probes_in_database}
use hub_core.Claim.{AuthService, World, Boot, ProvisionError, claim_hub_after_time_sync}

abbrev pub status_waiting : ℕ
status_waiting = 0

abbrev pub status_wifi_ok : ℕ
status_wifi_ok = 1

abbrev pub status_wifi_nok : ℕ
status_wifi_nok = 2

abbrev pub status_claim_ok : ℕ
status_claim_ok = 3

abbrev pub status_claim_nok : ℕ
status_claim_nok = 4

abbrev pub status_probe_scan_started : ℕ
status_probe_scan_started = 5

abbrev pub status_probe_scan_done : ℕ
status_probe_scan_done = 6

pub record ProvisionedHub : Type 0 where
  pub credentials : WifiCredentials
  pub hub_device_id : Text
  pub jwt : Text
  pub setup_probes : List SetupProbe

-- What an app writes to one of the two characteristics.
pub data Write : Type 0 where
  ssid_written password_written : List ℕ → Write

-- Outside: what happens until the loop looks again, and what it meets if it then finds a pair.
pub record Tick : Type 0 where
  pub writes : List Write
  pub driver : Driver
  pub boot : Boot
  pub adverts : List Advert
  pub scan_ends_well : Bool
  pub device_at : Text → Device
  pub advertises : Bool

-- The stores and services, and the values that the two readable characteristics were set to: those of the
-- status, the newest first, with whether each was notified.
pub record Prov (S W : Type 0) : Type 0 where
  pub world : World S W
  pub wire : Wire
  pub radio : Radio
  pub pending : PendingWifiCredentials
  pub status : List (ℕ × Bool)
  pub probes_value : Text

pub data Outcome : Type 0 where
  -- The loop goes on.
  waiting : Outcome
  provisioned : ProvisionedHub → Outcome
  not_advertised : Outcome
  panicked : Outcome

unfoldable pub receive : List Write → PendingWifiCredentials → PendingWifiCredentials
unfolding on_write_ssid on_write_password
receive [] p = p
receive (ssid_written raw ∷ rest) p = receive rest (on_write_ssid raw p)
receive (password_written raw ∷ rest) p = receive rest (on_write_password raw p)

-- A failed scan counts as no probes.
abbrev pub probes_or_none : Result ScanError (List SetupProbe) → Run (List SetupProbe)
probes_or_none (ok probes) = ok probes
probes_or_none (err e) = ok []
probes_or_none panic = panic

module _ {S W : Type 0} where
  -- `set_value(..).notify()`, and `set_value(..)`.
  abbrev pub notify_status : ℕ → Prov S W → Prov S W
  notify_status v s = record s { status = (v, true) ∷ s.status }

  abbrev pub set_status : ℕ → Prov S W → Prov S W
  set_status v s = record s { status = (v, false) ∷ s.status }

module _ {S W : Type 0} (f : Flash S) (service : AuthService W) (server : Server) where
  -- The end: the probes are acknowledged in the database, whatever comes of it, and listed.
  unfoldable pub hand_over :
      WifiCredentials → Text × Text → Run (List SetupProbe) → Prov S W → Outcome × Prov S W
  unfolding acknowledge_setup_probes_in_database encode_setup_probes
  hand_over creds c (ok probes) s =
      let (r, wire') = acknowledge_setup_probes_in_database server c.1 probes s.wire in
      (
        provisioned
            (record { credentials = creds; hub_device_id = c.0; jwt = c.1; setup_probes = probes }),
        notify_status status_probe_scan_done
            (record s { wire = wire'; probes_value = encode_setup_probes probes }),
      )
  hand_over creds c (err x) s = elim x [ ]
  hand_over creds c panic s = (panicked, s)

  unfoldable pub after_claim :
      Tick → WifiCredentials → Result ProvisionError (Text × Text) → Prov S W → Outcome × Prov S W
  unfolding hand_over discover_setup_probes
  after_claim t creds (ok c) s =
      hand_over creds c
        (probes_or_none
          (discover_setup_probes t.device_at (scan_probe_candidates t.adverts t.scan_ends_well)))
        (notify_status status_probe_scan_started (notify_status status_claim_ok s))
  after_claim t creds (err e) s =
      (waiting, set_status status_waiting (notify_status status_claim_nok s))
  after_claim t creds panic s = (panicked, s)

  -- The credentials are saved before the claim, and a save that fails is passed over.
  unfoldable pub save_and_claim : Tick → WifiCredentials → Prov S W → Outcome × Prov S W
  unfolding after_claim save claim_hub_after_time_sync
  save_and_claim t creds s =
      let (saved, store') = save f creds s.world.store in
      let (r, world') =
        claim_hub_after_time_sync f service t.boot (record s.world { store = store' }) in
      after_claim t creds r (record s { world = world' })

  unfoldable pub after_wifi :
      Tick → WifiCredentials → Result WifiError (Unit {0}) → Prov S W → Outcome × Prov S W
  unfolding save_and_claim
  after_wifi t creds (ok u) s = save_and_claim t creds (notify_status status_wifi_ok s)
  after_wifi t creds (err e) s = (
    if t.advertises then waiting else not_advertised,
    set_status status_waiting (notify_status status_wifi_nok s),
  )
  after_wifi t creds panic s = (panicked, s)

  unfoldable pub attempt : Tick → WifiCredentials → Prov S W → Outcome × Prov S W
  unfolding after_wifi connect_for_provisioning
  attempt t creds s =
      let (r, radio') = connect_for_provisioning t.driver creds.ssid s.radio in
      after_wifi t creds r (record s { radio = radio' })

  unfoldable pub look : Tick → PendingCredentialsState → Prov S W → Outcome × Prov S W
  unfolding attempt
  look t (complete creds) s = attempt t creds s
  look t (waiting_for_password ssid) s = (waiting, s)
  look t waiting_for_ssid s = (waiting, s)
  look t empty s = (waiting, s)

  -- One round of the loop.
  unfoldable pub round : Tick → Prov S W → Outcome × Prov S W
  unfolding look receive next_pending_credentials_state
  round t s =
      let (state, pending') = next_pending_credentials_state (receive t.writes s.pending) in
      look t state (record s { pending = pending' })

  abbrev pub then_rounds : Outcome × Prov S W → (Prov S W → Outcome × Prov S W) → Outcome × Prov S W
  then_rounds (waiting, s) k = k s
  then_rounds (provisioned h, s) k = (provisioned h, s)
  then_rounds (not_advertised, s) k = (not_advertised, s)
  then_rounds (panicked, s) k = (panicked, s)

  -- The loop, for as long as the ticks last.
  unfoldable pub rounds : List Tick → Prov S W → Outcome × Prov S W
  unfolding round
  rounds [] s = (waiting, s)
  rounds (t ∷ ts) s = then_rounds (round t s) (λ s'. rounds ts s')

  -- In front of the loop the characteristics are set, and the advertisement may fail.
  unfoldable pub run : Bool → List Tick → World S W → Wire → Radio → Outcome × Prov S W
  unfolding rounds
  run advertises ticks world wire radio =
      let s : Prov S W = record {
        world = world;
        wire = wire;
        radio = radio;
        pending = default;
        status = (status_waiting, false) ∷ [];
        probes_value = [];
      } in
      if not advertises then (not_advertised, s) else rounds ticks s
