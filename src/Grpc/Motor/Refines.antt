-- ===== src/Grpc/Motor/Refines.antt =====
-- The remote calls that src/polling.rs relies on are those of its client: the poller's view of what lies
-- outside, as src/grpc.rs gives it.
use hub_core.Base.{
  arith, ◌≡◌, sym, ap, ◌∙◌, ℕ, zero, suc, ◌+◌, Bool, List, Option, none, ◌&&◌, if◌then◌else◌,
}
use hub_core.Base.Int.{ℤ}
use hub_core.Base.Text.{Text}
use hub_core.Poller.State.{
  MotorCommand, MotorCommandAction, MotorCommandStatus, MotorCommandReasonCode, AckRequest, Session,
  Hub,
}
use hub_core.Poller.Actions.{ack_best_effort}
use hub_core.Poller.Polling
use hub_core.Grpc.{Server, Wire, bearer}
use hub_core.Grpc.Motor.{ack_once, pull_commands_once}
use hub_core.Grpc.Motor.Calls.{
  goes_through, value, connects_at, answers_ack, answer_to_pull, behind, ack_once_lem,
  pull_commands_once_lem,
}

-- Outside, in front of the first call of the poller: the clock, the numbers of the actions, and the calls
-- of tonic so far.
pub record Setting : Type 0 where
  pub server : Server
  pub clock : ℕ → Option ℕ
  pub action_of_i32 : ℤ → Option MotorCommandAction
  pub hub_device_id : Text
  pub jwt : Text
  pub first : ℕ

-- The call of tonic at which the n-th call of the poller begins.
unfoldable pub at_call : Setting → ℕ → ℕ
at_call x zero = x.first
at_call x (suc n) = behind x.server x.jwt (at_call x n)

abbrev pub session_of : Setting → Session
session_of x = record {
  outside = record {
    clock = x.clock;
    runtime_builds = λ n. x.server.runtime_builds (at_call x n);
    connects = λ n token. x.server.connects (at_call x n) && x.server.is_metadata (bearer token);
    ack_motor_command_event = λ n r. answers_ack x.server x.jwt (at_call x n) r;
    pull_pending_motor_commands = λ n hub. answer_to_pull x.server x.jwt (at_call x n) hub;
    action_of_i32 = x.action_of_i32;
  };
  hub_device_id = x.hub_device_id;
  jwt = x.jwt;
}

-- The poller and the client have made the same calls.
abbrev pub InStep : Setting → Hub → Wire → Type 0
InStep x s w = w.calls ≡ at_call x s.calls

module _ (x : Setting) where
  behind-at_call : (n k : ℕ) → k ≡ at_call x n → behind x.server x.jwt k ≡ at_call x (n + 1)
  unfolding at_call
  behind-at_call n k h =
      let next : suc n ≡ n + 1 = omega arith in
      ap (λ i. behind x.server x.jwt i) h ∙ ap (λ i. at_call x i) next

  pub ack-InStep :
      (r : AckRequest) (n : ℕ) (w : Wire)
      → w.calls ≡ at_call x n
      → (goes_through (ack_once x.server x.jwt r w).0 ≡ (
          (session_of x).runtime_builds n
          && ((session_of x).connects n x.jwt && (session_of x).ack_motor_command_event n r)))
        × ((ack_once x.server x.jwt r w).1.calls ≡ at_call x (n + 1))
  ack-InStep r n w h =
      let (result, calls, sent) = ack_once_lem x.server x.jwt r w in
      let seen : ℕ → Bool = λ k.
        x.server.runtime_builds k
        && (connects_at x.server x.jwt k && answers_ack x.server x.jwt k r) in
      (result ∙ ap seen h, calls ∙ behind-at_call n w.calls h)

  pub pull-InStep :
      (n : ℕ) (w : Wire)
      → w.calls ≡ at_call x n
      → (value (pull_commands_once x.server x.jwt x.hub_device_id w).0 ≡ (
          if (session_of x).runtime_builds n && (session_of x).connects n x.jwt
          then (session_of x).pull_pending_motor_commands n x.hub_device_id
          else none))
        × ((pull_commands_once x.server x.jwt x.hub_device_id w).1.calls ≡ at_call x (n + 1))
  pull-InStep n w h =
      let (result, calls, sent) = pull_commands_once_lem x.server x.jwt x.hub_device_id w in
      let seen : ℕ → Option (List MotorCommand) = λ k.
        if x.server.runtime_builds k && connects_at x.server x.jwt k
        then answer_to_pull x.server x.jwt k x.hub_device_id
        else none in
      (result ∙ ap seen h, calls ∙ behind-at_call n w.calls h)

-- While the poller and the client are in step, a pull of the poller gets what `pull_commands_once` gets
-- from the backend, an acknowledgement succeeds where `ack_once` does, and behind each they are in step
-- again.
pub poller_calls-refined :
    (x : Setting) (s : Hub) (w : Wire) (command_id node_id message : Text)
    (status : MotorCommandStatus) (why : MotorCommandReasonCode)
    → InStep x s w
    → let pulled = Polling.pull_commands_once (session_of x) s in
      let acked = ack_best_effort (session_of x) command_id node_id status why message s in
      let pull = pull_commands_once x.server x.jwt x.hub_device_id w in
      let ack =
        ack_once x.server x.jwt
          (record {
            command_id = command_id;
            hub_id = x.hub_device_id;
            node_id = node_id;
            status = status;
            reason_code = why;
            reason_message = message;
          })
          w in
      (pulled.0 ≡ value pull.0)
      × InStep x pulled.1 pull.1
      × (acked.0 ≡ goes_through ack.0)
      × InStep x acked.1 ack.1
unfolding ack_best_effort Polling.pull_commands_once
poller_calls-refined x s w command_id node_id message status why h =
    let (commands, pulls) = pull-InStep x s.calls w h in
    let (result, acks) = ack-InStep x _ s.calls w h in (sym commands, pulls, sym result, acks)
