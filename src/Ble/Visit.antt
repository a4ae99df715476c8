-- ===== src/Ble/Visit.antt =====
-- src/ble.rs: `read_probe_and_maybe_dispatch_motor`, the whole connection to a probe in normal mode.
use hub_core.Base.{not, Option, none, some, if◌then◌else◌}
use hub_core.Base.Text.{Text}
use hub_core.Base.Result.{Run, Result, ok, err, panic}
use hub_core.Motor.Report.{ProbeMotorResult}
use hub_core.Probe.Readings.{ReadError, ProbeReading, read_probe_from_service}
use hub_core.Poller.State.{MotorDispatchRequest, DispatchResult}
use hub_core.Ble.Link.{Device, Link, connect, disconnect}
use hub_core.Ble.Dispatch.{
  write_motor_payload_to_service, MotorReadError, read_motor_result_from_service,
}

pub record ProbeSessionResult : Type 0 where
  pub reading : ProbeReading
  pub motor_dispatch_result : Option DispatchResult
  pub last_motor_result : Option ProbeMotorResult

pub data VisitError : Type 0 where
  connect_failed : VisitError
  reading_failed : ReadError → VisitError

abbrev pub Visited : Type 0
Visited = Result VisitError (Option ProbeSessionResult) × Link

-- `.ok().flatten()`.
abbrev pub ok_flatten :
    Result MotorReadError (Option ProbeMotorResult) → Run (Option ProbeMotorResult)
ok_flatten (ok r) = ok r
ok_flatten (err e) = ok none
ok_flatten panic = panic

abbrev pub map_some : Run DispatchResult × Link → Run (Option DispatchResult) × Link
map_some (ok r, s) = (ok (some r), s)
map_some (err x, s) = elim x [ ]
map_some (panic, s) = (panic, s)

-- The request that the poller has for the probe, written if there is one.
unfoldable pub dispatch_if :
    Device → Option MotorDispatchRequest → Link → Run (Option DispatchResult) × Link
unfolding write_motor_payload_to_service
dispatch_if d none s = (ok none, s)
dispatch_if d (some r) s = map_some (write_motor_payload_to_service d r s)

-- The end of the connection, with the report or a panic of its parser.
unfoldable pub close_with :
    Device → ProbeReading → Option DispatchResult → Run (Option ProbeMotorResult) → Link → Visited
close_with d reading dispatch (ok report) s = (
  ok (
      some (record {
        reading = reading;
        motor_dispatch_result = dispatch;
        last_motor_result = report;
      })),
  disconnect d s,
)
close_with d reading dispatch (err x) s = elim x [ ]
close_with d reading dispatch panic s = (panic, s)

unfoldable pub after_dispatch : Device → ProbeReading → Run (Option DispatchResult) × Link → Visited
unfolding close_with read_motor_result_from_service
after_dispatch d reading (ok dispatch, s) =
    close_with d reading dispatch (ok_flatten (read_motor_result_from_service d)) s
after_dispatch d reading (err x, s) = elim x [ ]
after_dispatch d reading (panic, s) = (panic, s)

unfoldable pub after_reading :
    Device
    → (Text → Option MotorDispatchRequest)
    → Result ReadError (Option ProbeReading)
    → Link
    → Visited
unfolding dispatch_if after_dispatch
after_reading d resolve (ok (some reading)) s =
    after_dispatch d reading (dispatch_if d (resolve reading.probe_uuid) s)
after_reading d resolve (ok none) s = (ok none, disconnect d s)
after_reading d resolve (err e) s = (err (reading_failed e), disconnect d s)
after_reading d resolve panic s = (panic, s)

unfoldable pub read_probe_and_maybe_dispatch_motor :
    Device → (Text → Option MotorDispatchRequest) → Link → Visited
unfolding after_reading read_probe_from_service
read_probe_and_maybe_dispatch_motor d resolve s =
    if not d.connects
    then (err connect_failed, s)
    else if not d.has_service
    then (ok none, disconnect d (connect s))
    else after_reading d resolve (read_probe_from_service d.service d.addr d.reading_time)
        (connect s)
