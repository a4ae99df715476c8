-- ===== src/Grpc/Motor/Calls.antt =====
-- How one call of `pull_commands_once` or `ack_once` of src/polling.rs goes, by the number of the calls of
-- tonic that were made before.
use hub_core.Base.{
  arith, ◌≡◌, refl, ℕ, ◌+◌, Bool, true, false, ◌&&◌, List, ◌∷◌, Option, none, some, if◌then◌else◌,
  Bool-cases, inl, inr,
}
use hub_core.Base.Text.{Text}
use hub_core.Base.Result.{Result, ok, err, panic}
use hub_core.Poller.State.{MotorCommand, AckRequest}
use hub_core.Grpc.{
  of_status, PullPendingMotorCommandsRequest, AckMotorCommandEventRequest, Request,
  pull_pending_motor_commands, ack_motor_command_event, Server, Wire, bearer, connect_with_token,
  unary, pull_commands, ack_event,
}
use hub_core.Grpc.Motor.{
  not_done_if, poll_batch_size, poll_lease_duration_ms, MotorCallError, pull_with,
  pull_commands_once, ack_with, ack_once,
}

abbrev pub is_some : {A : Type 0} → Option A → Bool
is_some none = false
is_some (some a) = true

abbrev pub goes_through : {A : Type 0} → Result MotorCallError A → Bool
goes_through (ok a) = true
goes_through (err x) = false
goes_through panic = false

abbrev pub value : {A : Type 0} → Result MotorCallError A → Option A
value (ok a) = some a
value (err x) = none
value panic = none

abbrev pub pull_request : Text → PullPendingMotorCommandsRequest
pull_request hub = record {
  hub_id = hub;
  max_commands = poll_batch_size;
  lease_duration_ms = poll_lease_duration_ms;
}

status-goes_through :
    {A : Type 0} (o : Option A) → goes_through (not_done_if (of_status o)) ≡ is_some o
status-goes_through none = refl
status-goes_through (some a) = refl

status-value : {A : Type 0} (o : Option A) → value (not_done_if (of_status o)) ≡ o
status-value none = refl
status-value (some a) = refl

module _ (e : Server) (jwt : Text) where
  abbrev pub ack_request : AckRequest → AckMotorCommandEventRequest
  ack_request r = record {
    command_id = r.command_id;
    hub_id = r.hub_id;
    node_id = r.node_id;
    status = e.status_number r.status;
    reason_code = e.reason_number r.reason_code;
    reason_message = r.reason_message;
  }

  -- The k-th call of tonic is a connect with the token.
  abbrev pub connects_at : ℕ → Bool
  connects_at k = e.connects k && e.is_metadata (bearer jwt)

  abbrev pub answers_ack : ℕ → AckRequest → Bool
  answers_ack k r =
      e.is_ready (k + 1) && is_some (e.answer_ack (k + 1) (bearer jwt) (ack_request r))

  abbrev pub answer_to_pull : ℕ → Text → Option (List MotorCommand)
  answer_to_pull k hub =
      if e.is_ready (k + 1) then e.answer_pull (k + 1) (bearer jwt) (pull_request hub) else none

  -- The next call, behind a connect and, if that goes well, a request.
  abbrev pub behind : ℕ → ℕ
  behind k = if e.runtime_builds k && connects_at k then k + 2 else k + 1

  abbrev pub reaches : ℕ → Bool
  reaches k = e.runtime_builds k && (connects_at k && e.is_ready (k + 1))

  abbrev pub sent_by : Request → Wire → List (Text × Request)
  sent_by request w = if reaches w.calls then (bearer jwt, request) ∷ w.sent else w.sent

  pub ack_once_lem :
      (r : AckRequest) (w : Wire)
      → (goes_through (ack_once e jwt r w).0
          ≡ (e.runtime_builds w.calls && (connects_at w.calls && answers_ack w.calls r)))
        × ((ack_once e jwt r w).1.calls ≡ behind w.calls)
        × ((ack_once e jwt r w).1.sent ≡ sent_by (ack_motor_command_event (ack_request r)) w)
  unfolding ack_once ack_with connect_with_token ack_event unary
  ack_once_lem r w = elim (Bool-cases (e.runtime_builds w.calls)) [
    | inr broken ↦ rw broken (refl, refl, refl)
    | inl builds ↦ elim (Bool-cases (e.connects w.calls)) [
      | inr off ↦ rw (builds, off) (refl, refl, refl)
      | inl on ↦ elim (Bool-cases (e.is_metadata (bearer jwt))) [
        | inr bad ↦ rw (builds, on, bad) (refl, refl, refl)
        | inl good ↦ elim (Bool-cases (e.is_ready (w.calls + 1))) [
          | inr not_yet ↦ rw (builds, on, good, not_yet) (refl, omega arith, refl)
          | inl ready ↦
              rw (builds, on, good, ready)
                (
                  status-goes_through (e.answer_ack (w.calls + 1) (bearer jwt) (ack_request r)),
                  omega arith,
                  refl,
                )
        ]
      ]
    ]
  ]

  pub pull_commands_once_lem :
      (hub : Text) (w : Wire)
      → (value (pull_commands_once e jwt hub w).0 ≡ (
          if e.runtime_builds w.calls && connects_at w.calls
          then answer_to_pull w.calls hub
          else none))
        × ((pull_commands_once e jwt hub w).1.calls ≡ behind w.calls)
        × ((pull_commands_once e jwt hub w).1.sent
            ≡ sent_by (pull_pending_motor_commands (pull_request hub)) w)
  unfolding pull_commands_once pull_with connect_with_token pull_commands unary
  pull_commands_once_lem hub w = elim (Bool-cases (e.runtime_builds w.calls)) [
    | inr broken ↦ rw broken (refl, refl, refl)
    | inl builds ↦ elim (Bool-cases (e.connects w.calls)) [
      | inr off ↦ rw (builds, off) (refl, refl, refl)
      | inl on ↦ elim (Bool-cases (e.is_metadata (bearer jwt))) [
        | inr bad ↦ rw (builds, on, bad) (refl, refl, refl)
        | inl good ↦ elim (Bool-cases (e.is_ready (w.calls + 1))) [
          | inr not_yet ↦ rw (builds, on, good, not_yet) (refl, omega arith, refl)
          | inl ready ↦
              rw (builds, on, good, ready)
                (
                  status-value (e.answer_pull (w.calls + 1) (bearer jwt) (pull_request hub)),
                  omega arith,
                  refl,
                )
        ]
      ]
    ]
  ]
