-- ===== src/Grpc.antt =====
-- src/grpc.rs: `HubClient` over a channel of tonic, and its users in src/main.rs,
-- `upload_reading`, and src/wifi_prov.rs, `acknowledge_setup_probes_in_database`.
pub mod SetupAcks
pub mod Uplink
pub mod Motor
pub mod Tests
use hub_core.Base.{
  ℕ, ◌+◌, Bool, true, false, not, List, ◌∷◌, ◌++◌, Option, none, some, if◌then◌else◌,
}
use hub_core.Base.Int.{ℤ}
use hub_core.Base.Text.{Text, ascii}
use hub_core.Base.Result.{Result, ok, err, panic}
use hub_core.Poller.State.{MotorCommand, MotorCommandStatus, MotorCommandReasonCode}

-- `SensorData`; a float is the integer before the division by 100.0, as the readings keep it.
pub record SensorData : Type 0 where
  pub node_id : Text
  pub air_temperature : ℤ
  pub air_pressure : ℕ
  pub air_humidity : ℕ
  pub soil_temperature : ℤ
  pub soil_humidity : ℕ
  pub timestamp : ℤ

-- The messages of `garden.v2` and `control.v1`.
pub record InsertSensorDataRequest : Type 0 where
  pub node_id : Text
  pub air_temperature : ℤ
  pub air_pressure : ℕ
  pub air_humidity : ℕ
  pub soil_temperature : ℤ
  pub soil_humidity : ℕ
  pub timestamp : ℤ

pub record InsertSensorDataResponse : Type 0 where
  pub success : Bool
  pub message : Text

pub record PullPendingMotorCommandsRequest : Type 0 where
  pub hub_id : Text
  pub max_commands : ℤ
  pub lease_duration_ms : ℤ

pub record AckMotorCommandEventRequest : Type 0 where
  pub command_id : Text
  pub hub_id : Text
  pub node_id : Text
  pub status : ℤ
  pub reason_code : ℤ
  pub reason_message : Text

pub data Request : Type 0 where
  insert_sensor_data : InsertSensorDataRequest → Request
  pull_pending_motor_commands : PullPendingMotorCommandsRequest → Request
  ack_motor_command_event : AckMotorCommandEventRequest → Request

-- Outside: how the n-th call of tonic goes, which texts are metadata values, what the services answer
-- (`none` is a status), the numbers of the generated enums, and the clock before the n-th call.
pub record Server : Type 0 where
  pub runtime_builds : ℕ → Bool
  pub connects : ℕ → Bool
  pub is_metadata : Text → Bool
  pub is_ready : ℕ → Bool
  pub answer_insert : ℕ → Text → InsertSensorDataRequest → Option InsertSensorDataResponse
  pub answer_pull : ℕ → Text → PullPendingMotorCommandsRequest → Option (List MotorCommand)
  pub answer_ack : ℕ → Text → AckMotorCommandEventRequest → Option (Option MotorCommand)
  pub status_number : MotorCommandStatus → ℤ
  pub reason_number : MotorCommandReasonCode → ℤ
  pub clock : ℕ → Option ℕ

-- The number of calls so far, and the requests that were sent, the newest first, each with the value of
-- its `authorization`.
pub record Wire : Type 0 where
  pub calls : ℕ
  pub sent : List (Text × Request)

pub data GrpcError : Type 0 where
  not_connected bad_token not_ready failed_status : GrpcError
  rejected : Text → GrpcError

-- The client holds the value that its interceptor puts into each request.
pub record HubClient : Type 0 where
  pub token : Text

abbrev pub bearer : Text → Text
bearer token = ascii "Bearer " ++ token

abbrev pub Sending : Type 0 → Type 0
Sending A = Result GrpcError A × Wire

abbrev pub bump : Wire → Wire
bump w = record w { calls = w.calls + 1 }

abbrev pub of_status : {A : Type 0} → Option A → Result GrpcError A
of_status none = err failed_status
of_status (some a) = ok a

abbrev request_of : SensorData → InsertSensorDataRequest
request_of d = record {
  node_id = d.node_id;
  air_temperature = d.air_temperature;
  air_pressure = d.air_pressure;
  air_humidity = d.air_humidity;
  soil_temperature = d.soil_temperature;
  soil_humidity = d.soil_humidity;
  timestamp = d.timestamp;
}

-- The check of `resp.success`.
abbrev accepted : Result GrpcError InsertSensorDataResponse → Result GrpcError (Unit {0})
accepted (ok resp) = if not resp.success then err (rejected resp.message) else ok tt
accepted (err e) = err e
accepted panic = panic

module _ (e : Server) where
  unfoldable pub connect_with_token : Text → Wire → Sending HubClient
  connect_with_token token w =
      if not (e.connects w.calls)
      then (err not_connected, bump w)
      else if not (e.is_metadata (bearer token))
      then (err bad_token, bump w)
      else (ok (record { token = bearer token }), bump w)

  -- The interceptor's `call` stands where the request is sent.
  unfoldable pub unary :
      {Resp : Type 0} → (ℕ → Text → Option Resp) → Request → HubClient → Wire → Sending Resp
  unary answer request client w = if not (e.is_ready w.calls) then (err not_ready, bump w) else (
    of_status (answer w.calls client.token),
    record w { calls = w.calls + 1; sent = (client.token, request) ∷ w.sent },
  )

  unfoldable pub send_data : SensorData → HubClient → Wire → Sending (Unit {0})
  unfolding unary
  send_data d client w =
      let (resp, w') =
        unary (λ n token. e.answer_insert n token (request_of d))
          (insert_sensor_data (request_of d)) client w in
      (accepted resp, w')

  unfoldable pub pull_commands : Text → ℤ → ℤ → HubClient → Wire → Sending (List MotorCommand)
  unfolding unary
  pull_commands hub_id max_commands lease_duration_ms client w =
      let request : PullPendingMotorCommandsRequest = record {
        hub_id = hub_id;
        max_commands = max_commands;
        lease_duration_ms = lease_duration_ms;
      } in
      unary (λ n token. e.answer_pull n token request) (pull_pending_motor_commands request) client
        w

  unfoldable pub ack_event :
      Text
      → Text
      → Text
      → MotorCommandStatus
      → MotorCommandReasonCode
      → Text
      → HubClient
      → Wire
      → Sending (Option MotorCommand)
  unfolding unary
  ack_event command_id hub_id node_id status reason_code reason_message client w =
      let request : AckMotorCommandEventRequest = record {
        command_id = command_id;
        hub_id = hub_id;
        node_id = node_id;
        status = e.status_number status;
        reason_code = e.reason_number reason_code;
        reason_message = reason_message;
      } in
      unary (λ n token. e.answer_ack n token request) (ack_motor_command_event request) client w
