-- ===== src/MainLoop/Cycle.antt =====
-- src/main.rs, the loop of `main`: scan, visit each candidate, poll. (The synthetic reading of the feature
-- `fake-probe`, the pauses and the log lines are left out.)
pub mod Ends
pub mod Runs
pub mod Frames
pub mod Limited
pub mod Tests
use hub_core.Base.{
  ℕ, Bool, true, false, List, [], ◌∷◌, ◌++◌, map, Option, none, some, if◌then◌else◌,
}
use hub_core.Base.Text.{Text}
use hub_core.Base.Result.{Run, Result, ok, err, panic}
use hub_core.Probe.Adverts.{is_setup}
use hub_core.Probe.Readings.{ProbeReading}
use hub_core.Probe.Scan.{Advert, ProbeCandidate, ScanError, scan_probe_candidates}
use hub_core.Poller.State.{MotorDispatchRequest, Session, Hub, start}
use hub_core.Poller.Polling.{poll_once}
use hub_core.Poller.Dispatch.{peek_pending_for_probe_uuid}
use hub_core.Ble.Link.{Device, Link}
use hub_core.Ble.Visit.{
  ProbeSessionResult, VisitError, Visited, read_probe_and_maybe_dispatch_motor,
}
use hub_core.Ble.Setup.{SetupError, new_client, acknowledge_setup_probe}
use hub_core.Grpc.{Server, Wire}
use hub_core.Grpc.Uplink.{SensorReading, upload_reading}
use hub_core.MainLoop.{handle_session}

-- Outside: what one turn of the loop hears and meets.
pub record Air : Type 0 where
  pub adverts : List Advert
  pub scan_ends_well : Bool
  pub device_at : Text → Device

-- The poller, the calls of `upload_reading`, and what was written to the probes, by their addresses, the
-- newest first: motor frames and confirmations.
pub record Main : Type 0 where
  pub hub : Hub
  pub wire : Wire
  pub frames : List (Text × List ℕ)
  pub confirmed : List (Text × Text)

abbrev pub sensor_reading : ProbeReading → SensorReading
sensor_reading r = record {
  node_id = r.probe_uuid;
  air_temperature_c = r.air_temperature_c;
  air_pressure_pa = r.air_pressure_pa;
  air_humidity_pct = r.air_humidity_pct;
  soil_temperature_c = r.soil_temperature_c;
  soil_humidity_pct = r.soil_humidity_pct;
  timestamp_unix = r.timestamp;
}

-- What the link to a probe took, which was new.
abbrev pub noted : Text → Link → Main → Main
noted addr l s = record s {
  frames = map (λ frame. (addr, frame)) l.written ++ s.frames;
  confirmed = map (λ value. (addr, value)) l.confirmed ++ s.confirmed;
}

module _ (e : Session) (server : Server) where
  unfoldable pub take_session : ProbeSessionResult → Main → Main
  unfolding upload_reading handle_session
  take_session session s =
      let wire' = (upload_reading server e.jwt (sensor_reading session.reading) s.wire).wire in
      let (u, hub') =
        handle_session e session.reading.probe_uuid session.motor_dispatch_result
          session.last_motor_result s.hub in
      record s { hub = hub'; wire = wire' }

  unfoldable pub after_visit :
      Result VisitError (Option ProbeSessionResult) → Main → Run (Unit {0}) × Main
  unfolding take_session
  after_visit (ok (some session)) s = (ok tt, take_session session s)
  after_visit (ok none) s = (ok tt, s)
  after_visit (err x) s = (ok tt, s)
  after_visit panic s = (panic, s)

  unfoldable pub after_acknowledge : Result SetupError (Unit {0}) → Main → Run (Unit {0}) × Main
  after_acknowledge (ok u) s = (ok tt, s)
  after_acknowledge (err x) s = (ok tt, s)
  after_acknowledge panic s = (panic, s)

  -- The poller is asked as it stands in front of the visit.
  abbrev pub pending_for : Main → Text → Option MotorDispatchRequest
  pending_for s probe_uuid = peek_pending_for_probe_uuid probe_uuid s.hub.poller

  unfoldable pub visit : Device → ProbeCandidate → Main → Run (Unit {0}) × Main
  unfolding after_visit read_probe_and_maybe_dispatch_motor peek_pending_for_probe_uuid
  visit device c s =
      let (r, l) = read_probe_and_maybe_dispatch_motor device (pending_for s) new_client in
      after_visit r (noted c.addr l s)

  unfoldable pub acknowledge : Device → ProbeCandidate → Main → Run (Unit {0}) × Main
  unfolding after_acknowledge acknowledge_setup_probe
  acknowledge device c s =
      let (r, l) = acknowledge_setup_probe device new_client in
      after_acknowledge r (noted c.addr l s)

  unfoldable pub for_candidate : Device → ProbeCandidate → Main → Run (Unit {0}) × Main
  unfolding visit acknowledge
  for_candidate device c s =
      if is_setup c.meta.mode then acknowledge device c s else visit device c s

  abbrev pub go_on : Run (Unit {0}) × Main → (Main → Run (Unit {0}) × Main) → Run (Unit {0}) × Main
  go_on (ok u, s) k = k s
  go_on (err x, s) k = elim x [ ]
  go_on (panic, s) k = (panic, s)

  unfoldable pub for_all : (Text → Device) → List ProbeCandidate → Main → Run (Unit {0}) × Main
  unfolding for_candidate
  for_all device_at [] s = (ok tt, s)
  for_all device_at (c ∷ cs) s =
      go_on (for_candidate (device_at c.addr) c s) (λ t. for_all device_at cs t)

  unfoldable pub poll_commands_in_quiet_window : Main → Main
  unfolding poll_once
  poll_commands_in_quiet_window s = record s { hub = (poll_once e s.hub).1 }

  -- The three ends of a turn: the scan failed, nothing was found, all candidates were visited.
  unfoldable pub after_scan :
      (Text → Device) → Result ScanError (List ProbeCandidate) → Main → Run (Unit {0}) × Main
  unfolding for_all poll_commands_in_quiet_window
  after_scan device_at (err x) s = (ok tt, poll_commands_in_quiet_window s)
  after_scan device_at panic s = (panic, s)
  after_scan device_at (ok []) s = (ok tt, poll_commands_in_quiet_window s)
  after_scan device_at (ok (c ∷ cs)) s =
      go_on (for_all device_at (c ∷ cs) s) (λ t. (ok tt, poll_commands_in_quiet_window t))

  unfoldable pub turn : Air → Main → Run (Unit {0}) × Main
  unfolding after_scan scan_probe_candidates
  turn air s = after_scan air.device_at (scan_probe_candidates air.adverts air.scan_ends_well) s

  unfoldable pub turns : List Air → Main → Run (Unit {0}) × Main
  unfolding turn
  turns [] s = (ok tt, s)
  turns (air ∷ airs) s = go_on (turn air s) (λ t. turns airs t)

  -- Behind the boot: a poll, and then the loop.
  unfoldable pub main_loop : List Air → Wire → Run (Unit {0}) × Main
  unfolding turns poll_commands_in_quiet_window
  main_loop airs wire = turns airs (
      poll_commands_in_quiet_window
        (record { hub = start; wire = wire; frames = []; confirmed = [] }))
