-- ===== src/MainLoop/Cycle/Ends.antt =====
-- Each turn of the main loop ends, with one poll behind the visits: src/main.rs.
use hub_core.Base.{
  ◌≡◌, ◌≢◌, refl, Bool, true, false, List, [], ◌∷◌, Option, none, some, arith, Bool-cases, inl, inr,
}
use hub_core.Base.Text.{Text}
use hub_core.Base.Result.{Run, Result, ok, err, panic}
use hub_core.Motor.Report.{ProbeMotorResult}
use hub_core.Probe.Adverts.{is_setup}
use hub_core.Probe.Scan.{ProbeCandidate, ScanError, scan_probe_candidates}
use hub_core.Poller.State.{Session, Hub, DispatchResult}
use hub_core.Poller.Polling.{poll_once}
use hub_core.Poller.Dispatch.{complete_dispatched_for_probe, apply_probe_motor_result}
use hub_core.Ble.Link.{Device}
use hub_core.Ble.Visit.{ProbeSessionResult, VisitError, read_probe_and_maybe_dispatch_motor}
use hub_core.Ble.Setup.{SetupError, new_client, acknowledge_setup_probe}
use hub_core.Ble.Total.{
  read_probe_and_maybe_dispatch_motor-ne-panic, acknowledge_setup_probe-ne-panic,
  scan_probe_candidates-ne-panic,
}
use hub_core.Grpc.{Server}
use hub_core.MainLoop.{apply_if, complete_unless, ends_command, handle_session}
use hub_core.MainLoop.Cycle.{
  pending_for, Air, Main, noted, take_session, after_visit, after_acknowledge, visit, acknowledge,
  for_candidate, go_on, for_all, poll_commands_in_quiet_window, after_scan, turn,
}

-- What the visits of one turn do to the poller: reports are applied and dispatches completed, and
-- nothing is polled.
pub data Visits (e : Session) (s : Hub) : Hub → Type 0 where
  none_yet : Visits e s s
  completed :
      {t : Hub} (probe : Text) (r : DispatchResult)
      → Visits e s t
      → Visits e s (complete_dispatched_for_probe e probe r t).1
  applied :
      {t : Hub} (probe : Text) (r : ProbeMotorResult)
      → Visits e s t
      → Visits e s (apply_probe_motor_result e probe r t).1

module _ (e : Session) (server : Server) where
  apply_if-Visits :
      (probe : Text) (report : Option ProbeMotorResult) (s t : Hub)
      → Visits e s t
      → Visits e s (apply_if e probe report t).1
  unfolding apply_if
  apply_if-Visits probe none s t v = v
  apply_if-Visits probe (some r) s t v = applied probe r v

  complete_unless-Visits :
      (ends : Bool) (probe : Text) (result : Option DispatchResult) (s t : Hub)
      → Visits e s t
      → Visits e s (complete_unless e ends probe result t).1
  unfolding complete_unless
  complete_unless-Visits true probe result s t v = v
  complete_unless-Visits false probe none s t v = v
  complete_unless-Visits false probe (some r) s t v = completed probe r v

  take_session-Visits :
      (session : ProbeSessionResult) (h : Hub) (s : Main)
      → Visits e h s.hub
      → Visits e h (take_session e server session s).hub
  unfolding take_session handle_session
  take_session-Visits session h s v =
      let report = session.last_motor_result in
      let probe = session.reading.probe_uuid in
      complete_unless-Visits (ends_command report) probe session.motor_dispatch_result h
        (apply_if e probe report s.hub).1 (apply_if-Visits probe report h s.hub v)

  -- It ends without a panic, and only visits lie behind.
  pub EndsWith : Hub → Run (Unit {0}) × Main → Type 0
  EndsWith h p = (p.0 ≡ ok tt) × Visits e h p.1.hub

  after_visit-EndsWith :
      (r : Result VisitError (Option ProbeSessionResult)) (h : Hub) (s : Main)
      → r ≢ panic
      → Visits e h s.hub
      → EndsWith h (after_visit e server r s)
  unfolding EndsWith after_visit
  after_visit-EndsWith (ok (some session)) h s n v = (refl, take_session-Visits session h s v)
  after_visit-EndsWith (ok none) h s n v = (refl, v)
  after_visit-EndsWith (err x) h s n v = (refl, v)
  after_visit-EndsWith panic h s n v = absurd (n refl)

  after_acknowledge-EndsWith :
      (r : Result SetupError (Unit {0})) (h : Hub) (s : Main)
      → r ≢ panic
      → Visits e h s.hub
      → EndsWith h (after_acknowledge e server r s)
  unfolding EndsWith after_acknowledge
  after_acknowledge-EndsWith (ok tt) h s n v = (refl, v)
  after_acknowledge-EndsWith (err x) h s n v = (refl, v)
  after_acknowledge-EndsWith panic h s n v = absurd (n refl)

  visit-EndsWith :
      (d : Device) (c : ProbeCandidate) (h : Hub) (s : Main)
      → Visits e h s.hub
      → EndsWith h (visit e server d c s)
  unfolding visit
  visit-EndsWith d c h s v =
      let resolve = pending_for e server s in
      let visited = read_probe_and_maybe_dispatch_motor d resolve new_client in
      after_visit-EndsWith visited.0 h (noted c.addr visited.1 s)
        (read_probe_and_maybe_dispatch_motor-ne-panic d resolve new_client) v

  acknowledge-EndsWith :
      (d : Device) (c : ProbeCandidate) (h : Hub) (s : Main)
      → Visits e h s.hub
      → EndsWith h (acknowledge e server d c s)
  unfolding acknowledge
  acknowledge-EndsWith d c h s v =
      let done = acknowledge_setup_probe d new_client in
      after_acknowledge-EndsWith done.0 h (noted c.addr done.1 s)
        (acknowledge_setup_probe-ne-panic d new_client) v

  for_candidate-EndsWith :
      (d : Device) (c : ProbeCandidate) (h : Hub) (s : Main)
      → Visits e h s.hub
      → EndsWith h (for_candidate e server d c s)
  unfolding for_candidate
  for_candidate-EndsWith d c h s v = elim (Bool-cases (is_setup c.meta.mode)) [
    | inl setup ↦ rw setup (acknowledge-EndsWith d c h s v)
    | inr normal ↦ rw normal (visit-EndsWith d c h s v)
  ]

  go_on-EndsWith :
      (p : Run (Unit {0}) × Main) (k : Main → Run (Unit {0}) × Main) (h : Hub)
      → EndsWith h p
      → ((t : Main) → Visits e h t.hub → EndsWith h (k t))
      → EndsWith h (go_on e server p k)
  unfolding EndsWith
  go_on-EndsWith (ok u, s) k h (o, v) next = next s v
  go_on-EndsWith (err x, s) k h (o, v) next = elim x [ ]
  go_on-EndsWith (panic, s) k h (o, v) next = absurd (ground arith)

  for_all-EndsWith :
      (device_at : Text → Device) (cs : List ProbeCandidate) (h : Hub) (s : Main)
      → Visits e h s.hub
      → EndsWith h (for_all e server device_at cs s)
  unfolding for_all EndsWith
  for_all-EndsWith device_at [] h s v = (refl, v)
  for_all-EndsWith device_at (c ∷ cs) h s v =
      go_on-EndsWith (for_candidate e server (device_at c.addr) c s)
        (λ t. for_all e server device_at cs t) h (for_candidate-EndsWith (device_at c.addr) c h s v)
        (λ t w. for_all-EndsWith device_at cs h t w)

  -- It ends without a panic, and the last thing is a poll, behind visits.
  abbrev pub Polled : Main → Run (Unit {0}) × Main → Type 0
  Polled s p = (p.0 ≡ ok tt) × (mid : Hub) × Visits e s.hub mid × (p.1.hub ≡ (poll_once e mid).1)

  go_on-Polled :
      (p : Run (Unit {0}) × Main) (s : Main)
      → EndsWith s.hub p
      → Polled s (go_on e server p (λ t. (ok tt, poll_commands_in_quiet_window e server t)))
  unfolding EndsWith poll_commands_in_quiet_window
  go_on-Polled (ok u, t) s (o, v) = (refl, t.hub, v, refl)
  go_on-Polled (err x, t) s (o, v) = elim x [ ]
  go_on-Polled (panic, t) s (o, v) = absurd (ground arith)

  after_scan-Polled :
      (device_at : Text → Device) (r : Result ScanError (List ProbeCandidate)) (s : Main)
      → r ≢ panic
      → Polled s (after_scan e server device_at r s)
  unfolding after_scan
  after_scan-Polled device_at (err x) s n = (refl, s.hub, none_yet, refl)
  after_scan-Polled device_at panic s n = absurd (n refl)
  after_scan-Polled device_at (ok []) s n = (refl, s.hub, none_yet, refl)
  after_scan-Polled device_at (ok (c ∷ cs)) s n =
      go_on-Polled (for_all e server device_at (c ∷ cs) s) s
        (for_all-EndsWith device_at (c ∷ cs) s.hub s none_yet)

-- Whatever the scan hears, whether it ends well or not, and whatever the probes answer, a turn of the main
-- loop ends without a panic, and in the poller it is a series of applied reports and completed dispatches
-- with one poll behind them.
pub turn-Polled :
    (e : Session) (server : Server) (air : Air) (s : Main) → Polled e server s (turn e server air s)
unfolding turn
turn-Polled e server air s =
    after_scan-Polled e server air.device_at (scan_probe_candidates air.adverts air.scan_ends_well)
      s (scan_probe_candidates-ne-panic air.adverts air.scan_ends_well)
