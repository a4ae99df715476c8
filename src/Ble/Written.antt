-- ===== src/Ble/Written.antt =====
-- What a connection writes to the motor, and what it says of it.
use hub_core.Base.{
  true, false, Bool, ℕ, ◌≡◌, ◌≢◌, refl, ◌⊎◌, inl, inr, List, ◌∷◌, Option, none, some, arith,
  Bool-cases,
}
use hub_core.Base.Int.{leb_ℤ}
use hub_core.Base.Text.{Text}
use hub_core.Base.Result.{Run, Result, ok, err, panic}
use hub_core.Motor.Command.{BuildError, build_motor_command_payload}
use hub_core.Motor.Report.{ProbeMotorResult}
use hub_core.Probe.Readings.{ReadError, ProbeReading, get_unix_now_ms, read_probe_from_service}
use hub_core.Poller.State.{MotorDispatchRequest, DispatchResult, dispatched, dispatch_failed}
use hub_core.Ble.Closed.{read_motor_result-ne-panic}
use hub_core.Ble.Link.{Device, Link, connect, read_clock}
use hub_core.Ble.Dispatch.{
  write_frame, after_encode, encode_and_write, write_motor_payload_to_service,
  read_motor_result_from_service,
}
use hub_core.Ble.Visit.{
  VisitError, ProbeSessionResult, Visited, map_some, VisitError, ok_flatten, dispatch_if,
  close_with, after_dispatch, after_reading, read_probe_and_maybe_dispatch_motor,
}

-- A frame for the request, built at a reading of the clock, was the one thing written.
abbrev pub FrameFor : Device → MotorDispatchRequest → Link → Link → Type 0
FrameFor d r s t =
    (frame : List ℕ) × (n : ℕ) × (t.written ≡ frame ∷ s.written)
    × (build_motor_command_payload r.command_id r.action r.duration_ms r.expires_at_epoch_ms
          (get_unix_now_ms (d.clock n))
        ≡ ok frame)

-- A write that is called dispatched wrote its frame, and any other wrote nothing.
abbrev Honest : Device → MotorDispatchRequest → Link → Run DispatchResult × Link → Type 0
Honest d r s (out, t) =
    ((out ≡ ok dispatched) × FrameFor d r s t) ⊎ ((out ≢ ok dispatched) × (t.written ≡ s.written))

after_encode-Honest :
    (d : Device) (r : MotorDispatchRequest) (n : ℕ) (frame : Result BuildError (List ℕ)) (s : Link)
    → build_motor_command_payload r.command_id r.action r.duration_ms r.expires_at_epoch_ms
        (get_unix_now_ms (d.clock n))
      ≡ frame
    → Honest d r s (after_encode d r.expires_at_epoch_ms frame s)
unfolding after_encode write_frame
after_encode-Honest d r n (ok frame) s h = elim (Bool-cases d.write_succeeds) [
  | inl written ↦ rw written (inl (refl, (frame, n, refl, h)))
  | inr failed ↦ rw failed (inr (λ e. ground arith, refl))
]
after_encode-Honest d r n (err x) s h = inr (λ e. ground arith, refl)
after_encode-Honest d r n panic s h = inr (λ e. ground arith, refl)

encode_and_write-Honest :
    (d : Device) (r : MotorDispatchRequest) (s : Link) → Honest d r s (encode_and_write d r s)
unfolding encode_and_write
encode_and_write-Honest d r s = after_encode-Honest d r s.readings _ (read_clock d s).1 refl

write_motor-Honest :
    (d : Device) (r : MotorDispatchRequest) (s : Link)
    → Honest d r s (write_motor_payload_to_service d r s)
unfolding write_motor_payload_to_service
write_motor-Honest d r s = elim (Bool-cases d.has_motor_command) [
  | inl there ↦ elim (Bool-cases (leb_ℤ r.expires_at_epoch_ms (read_clock d s).0)) [
    | inl late ↦ rw there (rw late (inr (λ e. ground arith, refl)))
    | inr live ↦ rw there (rw live (encode_and_write-Honest d r (read_clock d s).1))
  ]
  | inr missing ↦ rw missing (inr (λ e. ground arith, refl))
]

abbrev pub is_dispatched : Option DispatchResult → Bool
is_dispatched none = false
is_dispatched (some dispatched) = true
is_dispatched (some (dispatch_failed why)) = false

-- Whether the result says that a command was dispatched.
abbrev pub says_dispatched : Result VisitError (Option ProbeSessionResult) → Bool
says_dispatched (ok (some x)) = is_dispatched x.motor_dispatch_result
says_dispatched (ok none) = false
says_dispatched (err e) = false
says_dispatched panic = false

other_result :
    (out : DispatchResult)
    → ◌≢◌ {A = Run DispatchResult} (ok out) (ok dispatched)
    → is_dispatched (some out) ≡ false
other_result dispatched n = absurd (n refl)
other_result (dispatch_failed why) n = refl

-- A connection wrote nothing and does not say `Ok` for a command, or wrote one frame and says so for the
-- command that the poller had for the probe that was read.
abbrev pub HonestVisit : Device → (Text → Option MotorDispatchRequest) → Link → Visited → Type 0
HonestVisit d resolve s (out, t) =
    ((t.written ≡ s.written) × (says_dispatched out ≡ false))
    ⊎ ((x : ProbeSessionResult) × (r : MotorDispatchRequest) × (out ≡ ok (some x))
        × (x.motor_dispatch_result ≡ some dispatched)
        × (resolve x.reading.probe_uuid ≡ some r)
        × FrameFor d r s t)

closed-Honest :
    (d : Device) (resolve : Text → Option MotorDispatchRequest) (reading : ProbeReading)
    (r : MotorDispatchRequest) (s : Link) (out : DispatchResult) (t : Link)
    (report : Run (Option ProbeMotorResult))
    → resolve reading.probe_uuid ≡ some r
    → report ≢ panic
    → Honest d r s (ok out, t)
    → HonestVisit d resolve s (close_with d reading (some out) report t)
unfolding close_with
closed-Honest d resolve reading r s out t (ok report) q n (inl (e, frame)) = inr (
  record { reading = reading; motor_dispatch_result = some out; last_motor_result = report },
  r,
  refl,
  ground arith,
  q,
  frame,
)
closed-Honest d resolve reading r s out t (ok report) q n (inr (e, same)) =
    inl (same, other_result out e)
closed-Honest d resolve reading r s out t (err x) q n h = elim x [ ]
closed-Honest d resolve reading r s out t panic q n h = absurd (n refl)

nothing_to_write :
    (d : Device) (resolve : Text → Option MotorDispatchRequest) (reading : ProbeReading) (s : Link)
    (report : Run (Option ProbeMotorResult))
    → HonestVisit d resolve s (close_with d reading none report s)
unfolding close_with
nothing_to_write d resolve reading s (ok report) = inl (refl, refl)
nothing_to_write d resolve reading s (err x) = elim x [ ]
nothing_to_write d resolve reading s panic = inl (refl, refl)

after_write :
    (d : Device) (resolve : Text → Option MotorDispatchRequest) (reading : ProbeReading)
    (r : MotorDispatchRequest) (s : Link) (w : Run DispatchResult × Link)
    → resolve reading.probe_uuid ≡ some r
    → Honest d r s w
    → HonestVisit d resolve s (after_dispatch d reading (map_some w))
unfolding after_dispatch
after_write d resolve reading r s (ok out, t) q h =
    closed-Honest d resolve reading r s out t (ok_flatten (read_motor_result_from_service d)) q
      (read_motor_result-ne-panic d) h
after_write d resolve reading r s (err x, t) q h = elim x [ ]
after_write d resolve reading r s (panic, t) q (inl (e, frame)) = absurd (ground arith)
after_write d resolve reading r s (panic, t) q (inr (e, same)) = inl (same, refl)

after_resolve :
    (d : Device) (resolve : Text → Option MotorDispatchRequest) (reading : ProbeReading)
    (o : Option MotorDispatchRequest) (s : Link)
    → resolve reading.probe_uuid ≡ o
    → HonestVisit d resolve s (after_dispatch d reading (dispatch_if d o s))
unfolding dispatch_if after_dispatch
after_resolve d resolve reading none s q =
    nothing_to_write d resolve reading s (ok_flatten (read_motor_result_from_service d))
after_resolve d resolve reading (some r) s q =
    after_write d resolve reading r s (write_motor_payload_to_service d r s) q
      (write_motor-Honest d r s)

after_reading-honest :
    (d : Device) (resolve : Text → Option MotorDispatchRequest)
    (r : Result ReadError (Option ProbeReading)) (s : Link)
    → HonestVisit d resolve s (after_reading d resolve r s)
unfolding after_reading
after_reading-honest d resolve (ok (some reading)) s =
    after_resolve d resolve reading (resolve reading.probe_uuid) s refl
after_reading-honest d resolve (ok none) s = inl (refl, refl)
after_reading-honest d resolve (err x) s = inl (refl, refl)
after_reading-honest d resolve panic s = inl (refl, refl)

-- A connection writes at most one frame. It says that a command was dispatched if and only if it wrote
-- one, and then that frame is the one that `build_motor_command_payload` makes, at a reading of the
-- hub's clock, of the request that the poller had for the identifier of the probe that was read.
pub read_probe_and_maybe_dispatch_motor-honest :
    (d : Device) (resolve : Text → Option MotorDispatchRequest) (s : Link)
    → HonestVisit d resolve s (read_probe_and_maybe_dispatch_motor d resolve s)
unfolding read_probe_and_maybe_dispatch_motor
read_probe_and_maybe_dispatch_motor-honest d resolve s = elim (Bool-cases d.connects) [
  | inr off ↦ rw off (inl (refl, refl))
  | inl on ↦ elim (Bool-cases d.has_service) [
    | inr bare ↦ rw on (rw bare (inl (refl, refl)))
    | inl serves ↦ rw on (
        rw serves (
          after_reading-honest d resolve (read_probe_from_service d.service d.addr d.reading_time)
            (connect s)))
  ]
]
