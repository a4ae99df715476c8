-- ===== src/Ble/Tests.antt =====
-- The theorems of the children of Ble at one probe: it serves values, takes a command, and has nothing
-- to confirm with.
use hub_core.Base.{
  not, ◌&&◌, ℕ, ◌≡◌, refl, ◌⊎◌, true, false, List, [], ◌∷◌, Option, none, some, arith,
}
use hub_core.Base.Int.{pos, ◌≤ℤ◌}
use hub_core.Base.Text.{Text, ascii, text_eq}
use hub_core.Probe.Adverts.{setup}
use hub_core.Probe.Readings.{ProbeReading, get_unix_now_ms}
use hub_core.Probe.Readings.RoundTrip.{serving}
use hub_core.Probe.Scan.{ProbeCandidate}
use hub_core.Poller.State.{dispatch_failed, expired_dispatch, MotorDispatchRequest}
use hub_core.Base.Result.{ok}
use hub_core.Poller.Actions.{is_expired_at}
use hub_core.Ble.Dispatch.{write_motor_payload_to_service}
use hub_core.Ble.NoExpiry.{no_expiry_never_written}
use hub_core.Ble.Confirmed.{probe_of, reported, discover_setup_probes-reported}
use hub_core.Ble.Link.{Device, Link}
use hub_core.Ble.Visit.{read_probe_and_maybe_dispatch_motor}
use hub_core.Ble.Setup.{new_client, read_setup_probe_identity, discover_setup_probes}
use hub_core.Ble.Closed.{read_probe_and_maybe_dispatch_motor-closed}
use hub_core.Ble.Written.{HonestVisit, read_probe_and_maybe_dispatch_motor-honest}
use hub_core.Ble.Safe.{IsRequest, SafeFor, read_probe_and_maybe_dispatch_motor-SafeFor}

abbrev values : ProbeReading
values = record {
  probe_uuid = [];
  air_temperature_c = pos 2150;
  air_pressure_pa = 101325;
  air_humidity_pct = 5500;
  soil_temperature_c = pos 1850;
  soil_humidity_pct = 3300;
  timestamp = pos 0;
}

abbrev pub device : Device
device = record {
  addr = ascii "AA:BB";
  connects = true;
  has_service = true;
  service = serving values [];
  reading_time = some 1000;
  has_motor_command = true;
  write_succeeds = true;
  motor_result = none;
  has_setup_confirm = true;
  confirm_succeeds = false;
  disconnects = true;
  clock = λ n. some 1000;
  error_text = ascii "timeout";
  build_error_text = λ e. ascii "bad frame";
}

abbrev request : MotorDispatchRequest
request = record {
  command_id = ascii "00012345-6789-abcd-efff-1020304050fa";
  action = 1;
  duration_ms = pos 6000;
  expires_at_epoch_ms = pos 60000;
}

abbrev resolve : Text → Option MotorDispatchRequest
resolve probe = some request

abbrev visited : Link
visited = (read_probe_and_maybe_dispatch_motor device resolve new_client).1

read_probe_and_maybe_dispatch_motor-closed_example :
    visited.connected ≡ (device.connects && not device.disconnects)
read_probe_and_maybe_dispatch_motor-closed_example =
    read_probe_and_maybe_dispatch_motor-closed device resolve new_client refl

read_probe_and_maybe_dispatch_motor-honest_example :
    HonestVisit device resolve new_client
      (read_probe_and_maybe_dispatch_motor device resolve new_client)
read_probe_and_maybe_dispatch_motor-honest_example =
    read_probe_and_maybe_dispatch_motor-honest device resolve new_client

past_1970 : (n : ℕ) → pos 0 ≤ℤ get_unix_now_ms (device.clock n)
unfolding get_unix_now_ms
past_1970 n = ground arith

asked-IsRequest : (probe : Text) (r : MotorDispatchRequest) → resolve probe ≡ some r → IsRequest r
asked-IsRequest probe r e = ground arith

read_probe_and_maybe_dispatch_motor-SafeFor_example :
    (visited.written ≡ new_client.written)
    ⊎ ((probe : Text) × (r : MotorDispatchRequest) × (resolve probe ≡ some r)
        × SafeFor r new_client visited)
read_probe_and_maybe_dispatch_motor-SafeFor_example =
    read_probe_and_maybe_dispatch_motor-SafeFor device resolve new_client past_1970 asked-IsRequest

abbrev candidate : ProbeCandidate
candidate = record {
  addr = ascii "AA:BB";
  meta = record { version_major = 1; version_minor = 2; name = ascii "BED-1"; mode = setup };
}

-- The first of the two takes the confirmation.
abbrev device_at : Text → Device
device_at addr = record device { addr = addr; confirm_succeeds = text_eq addr (ascii "AA:BB") }

abbrev two : List ProbeCandidate
two = candidate ∷ record candidate { addr = ascii "CC:DD" } ∷ []

reported_test : reported device_at two ≡ probe_of (device_at (ascii "AA:BB")) candidate ∷ []
unfolding reported read_setup_probe_identity text_eq
reported_test = refl

discover_setup_probes-reported_example :
    discover_setup_probes device_at (ok two) ≡ ok (reported device_at two)
discover_setup_probes-reported_example = discover_setup_probes-reported device_at two

abbrev lasting : MotorDispatchRequest
lasting = record request { expires_at_epoch_ms = pos 0 }

no_expiry_never_written_example :
    (is_expired_at (pos 1000) (pos 0) ≡ false)
    × ((write_motor_payload_to_service device lasting new_client).0
        ≡ ok (dispatch_failed expired_dispatch))
    × ((write_motor_payload_to_service device lasting new_client).1.written ≡ [])
no_expiry_never_written_example =
    no_expiry_never_written device lasting new_client (pos 1000) (ground arith) refl (past_1970 0)
