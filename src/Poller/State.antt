-- ===== src/Poller/State.antt =====
-- The data of src/polling.rs, the state of the hub that its methods change, and what they get from
-- outside: the clock, and the gRPC calls of src/grpc.rs.
use hub_core.Base.{ℕ, Bool, List, [], Option, none, some}
use hub_core.Base.Int.{ℤ, pos, as_i64}
use hub_core.Base.Text.{Text}
use hub_core.Base.Maps.{TextSet, empty_set}
use hub_core.Dedup.{CommandDedupSet}
use hub_core.Dedup

-- The message `control.v1.MotorCommand`, with the fields that the hub reads.
pub record MotorCommand : Type 0 where
  pub command_id : Text
  pub node_id : Text
  pub action : ℤ
  pub duration_ms : ℤ
  pub expires_at : ℤ

-- The variants of the generated enums that the hub names.
pub data MotorCommandAction : Type 0 where
  run_for_duration stop unspecified : MotorCommandAction

pub data MotorCommandStatus : Type 0 where
  sent_to_probe executing succeeded failed expired : MotorCommandStatus

pub data MotorCommandReasonCode : Type 0 where
  no_reason expired_reason ble_write_failed uart_timeout uart_rejected : MotorCommandReasonCode

pub record MotorDispatchRequest : Type 0 where
  pub command_id : Text
  pub action : ℕ
  pub duration_ms : ℤ
  pub expires_at_epoch_ms : ℤ

pub record PendingMotorCommand : Type 0 where
  pub command_id : Text
  pub node_id : Text
  pub action : ℕ
  pub duration_ms : ℤ
  pub expires_at_epoch_ms : ℤ

-- ble.rs, `MotorDispatchFailure`.
pub data MotorDispatchFailure : Type 0 where
  expired_dispatch : MotorDispatchFailure
  write_failed : Text → MotorDispatchFailure

-- `Result<(), MotorDispatchFailure>`.
pub data DispatchResult : Type 0 where
  dispatched : DispatchResult
  dispatch_failed : MotorDispatchFailure → DispatchResult

pub record CommandPoller : Type 0 where
  pub command_dedup : CommandDedupSet
  pub pending : List PendingMotorCommand
  pub applied_probe_results : TextSet

abbrev pub default : CommandPoller
default = record { command_dedup = Dedup.default; pending = []; applied_probe_results = empty_set }

-- What `ack_once` sends (`AckMotorCommandEventRequest` of grpc.rs), before the enums are numbered.
pub record AckRequest : Type 0 where
  pub command_id : Text
  pub hub_id : Text
  pub node_id : Text
  pub status : MotorCommandStatus
  pub reason_code : MotorCommandReasonCode
  pub reason_message : Text

-- Outside: the n-th reading of `SystemTime::now().duration_since(UNIX_EPOCH)` in milliseconds, and
-- how the n-th remote call goes (the runtime is built, the channel connects, the RPC returns).
pub record Outside : Type 0 where
  pub clock : ℕ → Option ℕ
  pub runtime_builds : ℕ → Bool
  pub connects : ℕ → Text → Bool
  pub ack_motor_command_event : ℕ → AckRequest → Bool
  pub pull_pending_motor_commands : ℕ → Text → Option (List MotorCommand)
  pub action_of_i32 : ℤ → Option MotorCommandAction

-- The arguments that `main` passes to every method, beside what lies outside. (The gate over the radio
-- is taken and released within one call.)
pub record Session : Type 0 where
  pub outside : Outside
  pub open outside use *
  pub hub_device_id : Text
  pub jwt : Text

-- The poller, with the number of clock readings and calls so far, and the acknowledgements that were
-- tried, the newest first, each with its success.
pub record Hub : Type 0 where
  pub poller : CommandPoller
  pub open poller use *
  pub readings : ℕ
  pub calls : ℕ
  pub acks : List (AckRequest × Bool)

abbrev pub start : Hub
start = record { poller = default; readings = 0; calls = 0; acks = [] }

abbrev pub M : Type 0 → Type 0
M A = Hub → A × Hub

abbrev pub pure : {A : Type 0} → A → M A
pure a s = (a, s)

infixl 5 ◌>>=◌ ◌>>◌
abbrev pub ◌>>=◌ : {A B : Type 0} → M A → (A → M B) → M B
◌>>=◌ m f s = let (a, s') = m s in f a s'

abbrev pub ◌>>◌ : {A B : Type 0} → M A → M B → M B
m >> k = m >>= λ _. k

-- `unix_now_ms`: 0 where the clock is before 1970.
abbrev pub now_ms : Option ℕ → ℤ
now_ms none = pos 0
now_ms (some n) = as_i64 n
