-- ===== src/Ble/Closed.antt =====
-- Which paths close the connection.
use hub_core.Base.{
  ℕ, ◌≡◌, ◌≢◌, refl, inl, inr, Bool, true, false, not, ◌&&◌, ◌||◌, ap, ◌∙◌, List, Option, none,
  some, arith, Option-cases,
}
use hub_core.Base.Int.{ℤ}
use hub_core.Base.Text.{Text}
use hub_core.Base.Result.{Run, Result, ok, err, panic}
use hub_core.Motor.Command.{BuildError, build_motor_command_payload}
use hub_core.Motor.Command.Frame.{build_motor_command_payload-ne-panic}
use hub_core.Motor.Report.{ProbeMotorResult}
use hub_core.Motor.Report.Frame.{parse_motor_result_payload-ne-panic}
use hub_core.Probe.Readings.{probe_uuid_char, ReadError, ProbeReading, read_probe_from_service}
use hub_core.Probe.Readings.Range.{read_probe_from_service-ne-panic}
use hub_core.Probe.Scan.{ProbeCandidate}
use hub_core.Poller.State.{MotorDispatchRequest, DispatchResult}
use hub_core.Ble.Link.{read_clock, Device, Link, connect}
use hub_core.Ble.Dispatch.{
  write_frame, after_encode, encode_and_write, write_motor_payload_to_service,
  read_motor_result_from_service,
}
use hub_core.Ble.Visit.{
  map_some, ok_flatten, dispatch_if, close_with, after_dispatch, after_reading,
  read_probe_and_maybe_dispatch_motor,
}
use hub_core.Ble.Setup.{
  confirm_and_close, acknowledge_setup_probe, confirm_identity, read_setup_probe_identity,
}

after_encode-ne-panic :
    (d : Device) (expires : ℤ) (r : Result BuildError (List ℕ)) (s : Link)
    → r ≢ panic
    → (after_encode d expires r s).0 ≢ panic
unfolding after_encode write_frame
after_encode-ne-panic d expires (ok p) s h e = ground arith
after_encode-ne-panic d expires (err x) s h e = ground arith
after_encode-ne-panic d expires panic s h e = h refl

encode_and_write-ne-panic :
    (d : Device) (r : MotorDispatchRequest) (s : Link) → (encode_and_write d r s).0 ≢ panic
unfolding encode_and_write
encode_and_write-ne-panic d r s = after_encode-ne-panic d r.expires_at_epoch_ms _ _ (
    build_motor_command_payload-ne-panic r.command_id r.action r.duration_ms r.expires_at_epoch_ms
      _)

write_motor-ne-panic :
    (d : Device) (r : MotorDispatchRequest) (s : Link)
    → (write_motor_payload_to_service d r s).0 ≢ panic
unfolding write_motor_payload_to_service
write_motor-ne-panic d r s e = ground (arith, encode_and_write-ne-panic d r (read_clock d s).1)

pub read_motor_result-ne-panic :
    (d : Device) → ok_flatten (read_motor_result_from_service d) ≢ panic
unfolding read_motor_result_from_service
read_motor_result-ne-panic d e = elim (Option-cases d.motor_result) [
  | inl missing ↦ ground arith
  | inr (none, failed) ↦ ground arith
  | inr (some raw, got) ↦ ground (arith, parse_motor_result_payload-ne-panic raw)
]

map_some-ne-panic : (r : Run DispatchResult × Link) → r.0 ≢ panic → (map_some r).0 ≢ panic
map_some-ne-panic (ok r, s) h e = ground arith
map_some-ne-panic (err x, s) h e = elim x [ ]
map_some-ne-panic (panic, s) h e = h refl

pub dispatch_if-ne-panic :
    (d : Device) (o : Option MotorDispatchRequest) (s : Link) → (dispatch_if d o s).0 ≢ panic
unfolding dispatch_if
dispatch_if-ne-panic d none s e = ground arith
dispatch_if-ne-panic d (some r) s e =
    map_some-ne-panic (write_motor_payload_to_service d r s) (write_motor-ne-panic d r s) e

-- On a path that ends without a panic the call that ends the connection was made.
module _ (d : Device) where
  abbrev Left : Link → Link → Type 0
  Left s t = t.connected ≡ (s.connected && not d.disconnects)

  close_with-Left :
      (reading : ProbeReading) (dispatch : Option DispatchResult)
      (r : Run (Option ProbeMotorResult)) (s : Link)
      → r ≢ panic
      → Left s (close_with d reading dispatch r s).1
  unfolding close_with
  close_with-Left reading dispatch (ok r) s h = refl
  close_with-Left reading dispatch (err x) s h = elim x [ ]
  close_with-Left reading dispatch panic s h = absurd (h refl)

  after_dispatch-Left :
      (reading : ProbeReading) (r : Run (Option DispatchResult) × Link)
      → r.0 ≢ panic
      → Left r.1 (after_dispatch d reading r).1
  unfolding after_dispatch
  after_dispatch-Left reading (ok dispatch, s) h =
      close_with-Left reading dispatch (ok_flatten (read_motor_result_from_service d)) s
        (read_motor_result-ne-panic d)
  after_dispatch-Left reading (err x, s) h = elim x [ ]
  after_dispatch-Left reading (panic, s) h = absurd (h refl)

  -- The write of a command does not touch the connection.
  after_encode-connected :
      (expires : ℤ) (r : Result BuildError (List ℕ)) (s : Link)
      → (after_encode d expires r s).1.connected ≡ s.connected
  unfolding after_encode write_frame
  after_encode-connected expires (ok p) s = ground arith
  after_encode-connected expires (err x) s = refl
  after_encode-connected expires panic s = refl

  write_motor-connected :
      (r : MotorDispatchRequest) (s : Link)
      → (write_motor_payload_to_service d r s).1.connected ≡ s.connected
  unfolding write_motor_payload_to_service encode_and_write
  write_motor-connected r s =
      let (now, t) = read_clock d (read_clock d s).1 in
      ground (
        arith,
        after_encode-connected r.expires_at_epoch_ms
            (build_motor_command_payload r.command_id r.action r.duration_ms r.expires_at_epoch_ms
              now)
            t,
      )

  map_some-connected : (p : Run DispatchResult × Link) → (map_some p).1.connected ≡ p.1.connected
  map_some-connected (ok r, s) = refl
  map_some-connected (err x, s) = elim x [ ]
  map_some-connected (panic, s) = refl

  dispatch_if-connected :
      (o : Option MotorDispatchRequest) (s : Link) → (dispatch_if d o s).1.connected ≡ s.connected
  unfolding dispatch_if
  dispatch_if-connected none s = refl
  dispatch_if-connected (some r) s =
      map_some-connected (write_motor_payload_to_service d r s) ∙ write_motor-connected r s

  after_reading-Left :
      (resolve : Text → Option MotorDispatchRequest) (r : Result ReadError (Option ProbeReading))
      (s : Link)
      → r ≢ panic
      → Left s (after_reading d resolve r s).1
  unfolding after_reading
  after_reading-Left resolve (ok (some reading)) s h =
      let o = resolve reading.probe_uuid in
      after_dispatch-Left reading (dispatch_if d o s) (dispatch_if-ne-panic d o s)
      ∙ ap (λ b. b && not d.disconnects) (dispatch_if-connected o s)
  after_reading-Left resolve (ok none) s h = refl
  after_reading-Left resolve (err x) s h = refl
  after_reading-Left resolve panic s h = absurd (h refl)

-- `read_probe_and_maybe_dispatch_motor`, started without a connection, calls for the end of the one that it
-- makes on every path, whatever the probe answers and whichever call before that fails: it ends with a
-- connection exactly if it made one and that last call, whose result the code drops, fails.
pub read_probe_and_maybe_dispatch_motor-closed :
    (d : Device) (resolve : Text → Option MotorDispatchRequest) (s : Link)
    → s.connected ≡ false
    → (read_probe_and_maybe_dispatch_motor d resolve s).1.connected
      ≡ (d.connects && not d.disconnects)
unfolding read_probe_and_maybe_dispatch_motor
read_probe_and_maybe_dispatch_motor-closed d resolve s h =
    let inner =
      after_reading-Left d resolve (read_probe_from_service d.service d.addr d.reading_time)
        (connect s) (read_probe_from_service-ne-panic d.service d.addr d.reading_time) in
    ground arith

-- A characteristic that is there and cannot be read.
abbrev pub read_fails : Option (Option (List ℕ)) → Bool
read_fails (some none) = true
read_fails (some (some raw)) = false
read_fails none = false

confirm_identity-connected :
    (d : Device) (c : ProbeCandidate) (o : Option (Option (List ℕ))) (s : Link)
    → s.connected ≡ true
    → (confirm_identity d c o s).1.connected ≡ (
        not d.disconnects
        || (not (read_fails o) && (d.has_setup_confirm && not d.confirm_succeeds)))
unfolding confirm_identity confirm_and_close
confirm_identity-connected d c none s h = ground arith
confirm_identity-connected d c (some none) s h = ground arith
confirm_identity-connected d c (some (some raw)) s h = ground arith

-- Both functions that confirm a probe in setup mode, started without a connection, end with one, if
-- they can end it, in exactly one case: the probe connects, has the service and the confirmation
-- characteristic, its identifier (where that is read first) can be read, and the write of the
-- confirmation fails.
pub setup_probe-left_open :
    (d : Device) (c : ProbeCandidate) (s : Link)
    → s.connected ≡ false
    → d.disconnects ≡ true
    → let stuck = d.has_setup_confirm && not d.confirm_succeeds in
      ((acknowledge_setup_probe d s).1.connected ≡ (d.connects && (d.has_service && stuck)))
      × ((read_setup_probe_identity d c s).1.connected ≡ (
          d.connects && (d.has_service && (not (read_fails (d.service probe_uuid_char)) && stuck))))
unfolding acknowledge_setup_probe confirm_and_close read_setup_probe_identity
setup_probe-left_open d c s h ends = (
  ground arith,
  ground (arith, confirm_identity-connected d c (d.service probe_uuid_char) (connect s)),
)
