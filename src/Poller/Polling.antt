-- ===== src/Poller/Polling.antt =====
-- src/polling.rs: `poll_once`, with `expire_pending_commands` and `store_polled_command`.

use hub_core.Base.{ℕ, ◌+◌, ◌&&◌, List, [], ◌∷◌, ◌++◌, Option, none, some, if◌then◌else◌}
use hub_core.Base.Int.{ℤ, pos, negsuc, ltb_ℤ}
use hub_core.Base.Text.{Text, ascii, decimal}
use hub_core.Dedup.{DedupBegin, new, already_processing, already_processed}
use hub_core.Motor.Command.{action_stop, action_run_for_duration}
use hub_core.Poller.State.{
  Session, MotorCommand, run_for_duration, stop, unspecified, MotorCommandStatus, failed, expired,
  MotorCommandReasonCode, expired_reason, ble_write_failed, PendingMotorCommand, Session, M, pure,
  ◌>>=◌, ◌>>◌,
}
use hub_core.Poller.Actions.{
  push_pending, take_pending, is_expired_at, unix_now_ms, begin_command, finish_command,
  ack_best_effort,
}

pub data ParsedCommandAction : Type 0 where
  run_for : ℤ → ParsedCommandAction
  stop_now : ParsedCommandAction
  unknown : ℤ → ParsedCommandAction

-- `{raw_action}` of an i32.
unfoldable pub decimal_i32 : ℤ → Text
decimal_i32 (pos n) = decimal n
decimal_i32 (negsuc n) = b'-' ∷ decimal (n + 1)

module _ (e : Session) where
  unfoldable pub expire : PendingMotorCommand → M (Unit {0})
  unfolding ack_best_effort finish_command
  expire command = do
    ack_best_effort e command.command_id command.node_id expired expired_reason
        (ascii "command expired before probe became available")
    finish_command e command.command_id

  unfoldable pub expire_one : PendingMotorCommand → M (Unit {0})
  unfolding unix_now_ms expire
  expire_one command = do
    now ← unix_now_ms e
    if is_expired_at now command.expires_at_epoch_ms then expire command else push_pending command

  unfoldable pub expire_loop : List PendingMotorCommand → M (Unit {0})
  expire_loop [] = pure tt
  expire_loop (command ∷ rest) = do expire_one command; expire_loop rest

  unfoldable pub expire_pending_commands : M (Unit {0})
  unfolding expire_loop expire_one
  expire_pending_commands = do pending ← take_pending; expire_loop pending

  unfoldable pub parse_command_action : MotorCommand → ParsedCommandAction
  parse_command_action command = elim (e.action_of_i32 command.action) [
    | none ↦ unknown command.action
    | some a ↦ elim a [
      | run_for_duration ↦ run_for command.duration_ms
      | stop ↦ stop_now
      | unspecified ↦ unknown command.action
    ]
  ]

  -- A refusal: the acknowledgement is tried, and the id is finished whatever comes of it.
  unfoldable pub refuse :
      MotorCommand → MotorCommandStatus → MotorCommandReasonCode → Text → M (Unit {0})
  unfolding ack_best_effort finish_command
  refuse command status reason_code message = do
    ack_best_effort e command.command_id command.node_id status reason_code message
    finish_command e command.command_id

  unfoldable pub store_action : MotorCommand → ℕ → M (Unit {0})
  store_action command action = push_pending (record {
    command_id = command.command_id;
    node_id = command.node_id;
    action = action;
    duration_ms = command.duration_ms;
    expires_at_epoch_ms = command.expires_at;
  })

  unfoldable pub store_parsed : MotorCommand → ParsedCommandAction → M (Unit {0})
  unfolding refuse store_action decimal_i32
  store_parsed command (run_for duration_ms) =
      if ltb_ℤ duration_ms (pos 0)
      then refuse command failed ble_write_failed (ascii "invalid negative motor duration")
      else store_action command action_run_for_duration
  store_parsed command stop_now = store_action command action_stop
  store_parsed command (unknown raw_action) =
      refuse command failed ble_write_failed
        (ascii "unsupported motor action value: " ++ decimal_i32 raw_action)

  unfoldable pub store_new : MotorCommand → M (Unit {0})
  unfolding unix_now_ms refuse store_parsed parse_command_action
  store_new command = do
    now ← unix_now_ms e
    if is_expired_at now command.expires_at
        then refuse command expired expired_reason (ascii "command expired before dispatch")
        else store_parsed command (parse_command_action command)

  -- The match on what `try_begin` says: a duplicate is passed over.
  unfoldable pub store_begun : MotorCommand → DedupBegin → M (Unit {0})
  unfolding store_new
  store_begun command already_processed = pure tt
  store_begun command already_processing = pure tt
  store_begun command new = store_new command

  unfoldable pub store_polled_command : MotorCommand → M (Unit {0})
  unfolding begin_command store_begun
  store_polled_command command = do
    begun ← begin_command e command.command_id
    store_begun command begun

  unfoldable pub store_all : List MotorCommand → M (Unit {0})
  unfolding store_polled_command
  store_all [] = pure tt
  store_all (command ∷ rest) = do store_polled_command command; store_all rest

  -- `pull_commands_once`: `none` if the runtime, the connection or the RPC fails.
  unfoldable pub pull_commands_once : M (Option (List MotorCommand))
  pull_commands_once s = (
    if e.runtime_builds s.calls && e.connects s.calls e.jwt
        then e.pull_pending_motor_commands s.calls e.hub_device_id
        else none,
    record s { calls = s.calls + 1 },
  )

  unfoldable pub store_pulled : Option (List MotorCommand) → M (Unit {0})
  unfolding store_all
  store_pulled none = pure tt
  store_pulled (some commands) = store_all commands

  unfoldable pub poll_once : M (Unit {0})
  unfolding expire_pending_commands pull_commands_once store_pulled
  poll_once = do expire_pending_commands; pulled ← pull_commands_once; store_pulled pulled
