-- ===== src/Ble/Total.antt =====
-- No session with a probe panics: src/ble.rs.
use hub_core.Base.{[], ◌≢◌, refl, Bool, true, false, List, Option, none, some, arith}
use hub_core.Base.Text.{Text}
use hub_core.Base.Result.{Run, Result, ok, err, panic}
use hub_core.Motor.Report.{ProbeMotorResult}
use hub_core.Probe.Readings.{ReadError, ProbeReading, read_probe_from_service}
use hub_core.Probe.Readings.Range.{read_probe_from_service-ne-panic}
use hub_core.Probe.Scan.{Advert, scan_probe_candidates}
use hub_core.Probe.Scan.Best.{scan_loop_lem}
use hub_core.Poller.State.{MotorDispatchRequest, DispatchResult}
use hub_core.Ble.Link.{Device, Link, connect}
use hub_core.Ble.Dispatch.{read_motor_result_from_service}
use hub_core.Ble.Visit.{
  ok_flatten, dispatch_if, close_with, after_dispatch, after_reading,
  read_probe_and_maybe_dispatch_motor,
}
use hub_core.Ble.Setup.{confirm_and_close, acknowledge_setup_probe}
use hub_core.Ble.Closed.{read_motor_result-ne-panic, dispatch_if-ne-panic}

close_with-ne-panic :
    (d : Device) (reading : ProbeReading) (dispatch : Option DispatchResult)
    (r : Run (Option ProbeMotorResult)) (s : Link)
    → r ≢ panic
    → (close_with d reading dispatch r s).0 ≢ panic
unfolding close_with
close_with-ne-panic d reading dispatch (ok r) s h e = ground arith
close_with-ne-panic d reading dispatch (err x) s h e = elim x [ ]
close_with-ne-panic d reading dispatch panic s h e = h refl

after_dispatch-ne-panic :
    (d : Device) (reading : ProbeReading) (r : Run (Option DispatchResult) × Link)
    → r.0 ≢ panic
    → (after_dispatch d reading r).0 ≢ panic
unfolding after_dispatch
after_dispatch-ne-panic d reading (ok dispatch, s) h =
    close_with-ne-panic d reading dispatch (ok_flatten (read_motor_result_from_service d)) s
      (read_motor_result-ne-panic d)
after_dispatch-ne-panic d reading (err x, s) h = elim x [ ]
after_dispatch-ne-panic d reading (panic, s) h = λ e. h refl

after_reading-ne-panic :
    (d : Device) (resolve : Text → Option MotorDispatchRequest)
    (r : Result ReadError (Option ProbeReading)) (s : Link)
    → r ≢ panic
    → (after_reading d resolve r s).0 ≢ panic
unfolding after_reading
after_reading-ne-panic d resolve (ok (some reading)) s h =
    after_dispatch-ne-panic d reading (dispatch_if d (resolve reading.probe_uuid) s)
      (dispatch_if-ne-panic d (resolve reading.probe_uuid) s)
after_reading-ne-panic d resolve (ok none) s h = λ e. ground arith
after_reading-ne-panic d resolve (err x) s h = λ e. ground arith
after_reading-ne-panic d resolve panic s h = λ e. h refl

pub read_probe_and_maybe_dispatch_motor-ne-panic :
    (d : Device) (resolve : Text → Option MotorDispatchRequest) (s : Link)
    → (read_probe_and_maybe_dispatch_motor d resolve s).0 ≢ panic
unfolding read_probe_and_maybe_dispatch_motor
read_probe_and_maybe_dispatch_motor-ne-panic d resolve s e =
    let inner =
      after_reading-ne-panic d resolve (read_probe_from_service d.service d.addr d.reading_time)
        (connect s) (read_probe_from_service-ne-panic d.service d.addr d.reading_time) in
    ground arith

pub acknowledge_setup_probe-ne-panic :
    (d : Device) (s : Link) → (acknowledge_setup_probe d s).0 ≢ panic
unfolding acknowledge_setup_probe confirm_and_close
acknowledge_setup_probe-ne-panic d s e = ground arith

pub scan_probe_candidates-ne-panic :
    (adverts : List Advert) (ends_well : Bool) → scan_probe_candidates adverts ends_well ≢ panic
unfolding scan_probe_candidates
scan_probe_candidates-ne-panic adverts true e =
    let (r, ok_r, l, c) = scan_loop_lem adverts [] in ground arith
scan_probe_candidates-ne-panic adverts false e =
    let (r, ok_r, l, c) = scan_loop_lem adverts [] in ground arith
