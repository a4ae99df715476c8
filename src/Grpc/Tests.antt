-- ===== src/Grpc/Tests.antt =====
-- The theorems of Grpc on a service that accepts every reading but one probe's.
use mathlib.Core.List.{Sublistᴰ}
use hub_core.Base.{◌≡◌, refl, ◌+◌, ◌≤◌, true, not, [], ◌∷◌, none, some, length}
use hub_core.Base.Int.{pos}
use hub_core.Base.Text.{Text, ascii, text_eq}
use hub_core.Base.Result.{err}
use hub_core.Dedup.{try_begin}
use hub_core.Poller.State.{
  MotorCommand, run_for_duration, succeeded, no_reason, AckRequest, Hub, start,
}
use hub_core.Poller.Actions.{ack_best_effort}
use hub_core.Poller.Polling
use hub_core.Poller.Polling.{poll_once}
use hub_core.Poller.Reachable.{poll, boot, next}
use hub_core.Grpc.Motor.{ack_once, pull_commands_once}
use hub_core.Grpc.Motor.Calls.{goes_through, value}
use hub_core.Grpc.Motor.Refines.{Setting, at_call, session_of, InStep, poller_calls-refined}
use hub_core.Grpc.Motor.Carried.{Carried, succeeded_acks, Reachable-Carried}
use hub_core.Provisioning.ProbeList.{SetupProbe}
use hub_core.Grpc.{Server, Wire}
use hub_core.Grpc.SetupAcks.{failed_acks, acknowledge_setup_probes_in_database}
use hub_core.Grpc.SetupAcks.Sent.{
  authorization, reported, all_sent, not_accepted, acknowledge_setup_probes_in_database_lem,
}
use hub_core.Grpc.Uplink.{SensorReading, upload_reading}
use hub_core.Grpc.Uplink.Tries.{Tries, upload_reading-Tries}

abbrev stale : MotorCommand
stale = record {
  command_id = ascii "c";
  node_id = ascii "a";
  action = pos 1;
  duration_ms = pos 3000;
  expires_at = pos 1;
}

abbrev pub server : Server
server = record {
  runtime_builds = λ n. true;
  connects = λ n. true;
  is_metadata = λ t. true;
  is_ready = λ n. true;
  answer_insert = λ n token r.
      some (record { success = not (text_eq r.node_id (ascii "b")); message = ascii "unknown" });
  answer_pull = λ n token r. some (stale ∷ []);
  answer_ack = λ n token r. some none;
  status_number = λ s. pos 0;
  reason_number = λ s. pos 0;
  clock = λ n. some n;
}

abbrev pub quiet : Wire
quiet = record { calls = 0; sent = [] }

abbrev probe : Text → SetupProbe
probe id = record { probe_uuid = id; name = ascii "p"; version_major = 1; version_minor = 0 }

acknowledge_setup_probes_in_database_lem_example :
    acknowledge_setup_probes_in_database server
      (ascii "jwt")
      (probe (ascii "a") ∷ probe (ascii "b") ∷ [])
      quiet
    ≡ (
      reported
          (not_accepted server
            (authorization (ascii "jwt"))
            (probe (ascii "a") ∷ probe (ascii "b") ∷ [])
            (0 + 1))
          2,
      record {
        calls = 3;
        sent =
            all_sent server
              (authorization (ascii "jwt"))
              (probe (ascii "a") ∷ probe (ascii "b") ∷ [])
              (0 + 1)
              [];
      },
    )
acknowledge_setup_probes_in_database_lem_example =
    acknowledge_setup_probes_in_database_lem server (ascii "jwt") (probe (ascii "a"))
      (probe (ascii "b") ∷ []) quiet refl refl refl (λ n. refl)

one_failed_test :
    (acknowledge_setup_probes_in_database server
      (ascii "jwt")
      (probe (ascii "b") ∷ probe (ascii "a") ∷ probe (ascii "b") ∷ [])
      quiet).0
    ≡ err (failed_acks 2 3)
unfolding acknowledge_setup_probes_in_database text_eq
one_failed_test = refl

abbrev reading : SensorReading
reading = record {
  node_id = ascii "b";
  air_temperature_c = pos 2150;
  air_pressure_pa = 101325;
  air_humidity_pct = 4800;
  soil_temperature_c = pos 1870;
  soil_humidity_pct = 3330;
  timestamp_unix = pos 7;
}

upload_reading-Tries_example :
    let u = upload_reading server (ascii "jwt") reading quiet in
    Tries server (ascii "jwt") reading 3 quiet u.attempts u.delivered u.wire
    × (u.slept + 1 ≡ u.attempts)
upload_reading-Tries_example = upload_reading-Tries server (ascii "jwt") reading quiet

dropped_test : length (upload_reading server (ascii "jwt") reading quiet).wire.sent ≡ 3
unfolding upload_reading text_eq
dropped_test = refl

-- The poller over that service, whose command is expired and refused.
abbrev setting : Setting
setting = record {
  server = server;
  clock = λ n. some 1000;
  action_of_i32 = λ a. some run_for_duration;
  hub_device_id = ascii "hub";
  jwt = ascii "jwt";
  first = 0;
}

abbrev polled : Hub
polled = (poll_once (session_of setting) start).1

acked_test : length polled.acks ≡ 1
unfolding poll_once try_begin
acked_test = refl

start-InStep : InStep setting start quiet
unfolding at_call
start-InStep = refl

poller_calls-refined_example :
    let pulled = Polling.pull_commands_once (session_of setting) start in
    let r : AckRequest = record {
      command_id = ascii "c";
      hub_id = ascii "hub";
      node_id = ascii "a";
      status = succeeded;
      reason_code = no_reason;
      reason_message = [];
    } in
    let acked =
      ack_best_effort (session_of setting) (ascii "c") (ascii "a") succeeded no_reason [] start in
    let pull = pull_commands_once server (ascii "jwt") (ascii "hub") quiet in
    let ack = ack_once server (ascii "jwt") r quiet in
    (pulled.0 ≡ value pull.0)
    × InStep setting pulled.1 pull.1
    × (acked.0 ≡ goes_through ack.0)
    × InStep setting acked.1 ack.1
poller_calls-refined_example =
    poller_calls-refined setting start quiet (ascii "c") (ascii "a") [] succeeded no_reason
      start-InStep

Reachable-Carried_example :
    (w : Wire) × Carried setting polled.calls polled.acks w
    × InStep setting polled w
    × Sublistᴰ (succeeded_acks setting polled.acks) w.sent
    × (length w.sent ≤ polled.calls)
Reachable-Carried_example = Reachable-Carried setting polled (next boot poll)
