-- ===== src/Grpc/Motor.antt =====
-- src/polling.rs: `pull_commands_once` and `ack_once`, on the client of src/grpc.rs.
pub mod Calls
pub mod Refines
pub mod Carried
use hub_core.Base.{not, List, Option, if◌then◌else◌}
use hub_core.Base.Int.{ℤ, pos}
use hub_core.Base.Text.{Text}
use hub_core.Base.Result.{Result, ok, err, panic}
use hub_core.Poller.State.{MotorCommand, AckRequest}
use hub_core.Grpc.{
  bump, Server, Wire, GrpcError, HubClient, connect_with_token, pull_commands, ack_event,
}

-- config.rs, MOTOR_COMMAND_POLL_BATCH_SIZE and MOTOR_COMMAND_POLL_LEASE_DURATION_MS.
abbrev pub poll_batch_size : ℤ
poll_batch_size = pos 1

abbrev pub poll_lease_duration_ms : ℤ
poll_lease_duration_ms = pos 300000

pub data MotorCallError : Type 0 where
  no_runtime : MotorCallError
  not_done : GrpcError → MotorCallError

abbrev pub not_done_if : {A : Type 0} → Result GrpcError A → Result MotorCallError A
not_done_if (ok a) = ok a
not_done_if (err x) = err (not_done x)
not_done_if panic = panic

abbrev pub Calling : Type 0 → Type 0
Calling A = Result MotorCallError A × Wire

module _ (e : Server) (jwt : Text) where
  unfoldable pub pull_with : Text → Result GrpcError HubClient × Wire → Calling (List MotorCommand)
  unfolding pull_commands
  pull_with hub_device_id (ok client, w) =
      let (commands, w') =
        pull_commands e hub_device_id poll_batch_size poll_lease_duration_ms client w in
      (not_done_if commands, w')
  pull_with hub_device_id (err x, w) = (err (not_done x), w)
  pull_with hub_device_id (panic, w) = (panic, w)

  unfoldable pub pull_commands_once : Text → Wire → Calling (List MotorCommand)
  unfolding pull_with connect_with_token
  pull_commands_once hub_device_id w =
      if not (e.runtime_builds w.calls)
      then (err no_runtime, bump w)
      else pull_with hub_device_id (connect_with_token e jwt w)

  unfoldable pub ack_with :
      AckRequest → Result GrpcError HubClient × Wire → Calling (Option MotorCommand)
  unfolding ack_event
  ack_with r (ok client, w) =
      let (command, w') =
        ack_event e r.command_id r.hub_id r.node_id r.status r.reason_code r.reason_message client
          w in
      (not_done_if command, w')
  ack_with r (err x, w) = (err (not_done x), w)
  ack_with r (panic, w) = (panic, w)

  -- The record has the arguments that describe the event.
  unfoldable pub ack_once : AckRequest → Wire → Calling (Option MotorCommand)
  unfolding ack_with connect_with_token
  ack_once r w =
      if not (e.runtime_builds w.calls)
      then (err no_runtime, bump w)
      else ack_with r (connect_with_token e jwt w)
