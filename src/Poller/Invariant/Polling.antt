-- ===== src/Poller/Invariant/Polling.antt =====
-- `poll_once` keeps the invariant.
use hub_core.Base.{
  ℕ, ◌+◌, ◌≡◌, ◌≢◌, List, [], ◌∷◌, ◌++◌, Option, none, some, refl, arith, Bool-cases, inl, inr,
}
use hub_core.Base.Int.{ltb_ℤ, pos}
use hub_core.Base.Text.{ascii, Text}
use hub_core.Dedup.{DedupBegin, new, already_processing, already_processed}
use hub_core.Motor.Command.{action_stop, action_run_for_duration}
use hub_core.Poller.State.{
  Session, MotorCommand, PendingMotorCommand, Hub, MotorCommandStatus, MotorCommandReasonCode,
  expired, expired_reason, failed, ble_write_failed,
}
use hub_core.Poller.Actions.{unix_now_ms, begin_command, is_expired_at, take_pending}
use hub_core.Poller.Polling.{
  store_begun, store_pulled, decimal_i32, ParsedCommandAction, run_for, stop_now, unknown, expire,
  expire_one, expire_loop, expire_pending_commands, parse_command_action, refuse, store_action,
  store_parsed, store_new, store_polled_command, store_all, pull_commands_once, poll_once,
}
use hub_core.Poller.Invariant.{InvWith, Inv-ext, one_more, count_id}
use hub_core.Poller.Invariant.Steps.{
  take_pending-InvWith, begin_command-InvWith, begin_command-InvWith_known, ack_and_finish-InvWith,
  push_pending-InvWith,
}

module _ (e : Session) where
  expire-InvWith :
      (c : PendingMotorCommand) (extra : Text → ℕ) (s : Hub)
      → InvWith (one_more c.command_id extra) s
      → InvWith extra (expire e c s).1
  unfolding expire
  expire-InvWith c extra s v =
      ack_and_finish-InvWith e c.command_id c.node_id expired expired_reason
        (ascii "command expired before probe became available") extra s v

  expire_one-InvWith :
      (c : PendingMotorCommand) (extra : Text → ℕ) (s : Hub)
      → InvWith (one_more c.command_id extra) s
      → InvWith extra (expire_one e c s).1
  unfolding expire_one unix_now_ms
  expire_one-InvWith c extra s v =
      let s1 : Hub = (unix_now_ms e s).1 in
      elim (Bool-cases (is_expired_at (unix_now_ms e s).0 c.expires_at_epoch_ms)) [
        | inl late ↦ rw late (expire-InvWith c extra s1 v)
        | inr early ↦ rw early (push_pending-InvWith e c extra s1 v)
      ]

  expire_loop-InvWith :
      (cs : List PendingMotorCommand) (extra : Text → ℕ) (s : Hub)
      → InvWith (λ id. count_id id cs + extra id) s
      → InvWith extra (expire_loop e cs s).1
  unfolding expire_loop
  expire_loop-InvWith [] extra s v =
      Inv-ext (λ id. count_id id s.pending + (0 + extra id))
        (λ id. count_id id s.pending + extra id) (λ id. omega arith) v
  expire_loop-InvWith (c ∷ cs) extra s v =
      let more : Text → ℕ = λ id. count_id id cs + extra id in
      expire_loop-InvWith cs extra (expire_one e c s).1 (
        expire_one-InvWith c more s (
          Inv-ext (λ id. count_id id s.pending + (count_id id (c ∷ cs) + extra id))
            (λ id. count_id id s.pending + one_more c.command_id more id) (λ id. omega arith) v))

  pub expire_pending_commands-InvWith :
      (extra : Text → ℕ) (s : Hub) → InvWith extra s → InvWith extra (expire_pending_commands e s).1
  unfolding expire_pending_commands
  expire_pending_commands-InvWith extra s v =
      expire_loop-InvWith s.pending extra (take_pending s).1 (take_pending-InvWith e extra s v)

  refuse-InvWith :
      (c : MotorCommand) (status : MotorCommandStatus) (why : MotorCommandReasonCode)
      (message : Text) (extra : Text → ℕ) (s : Hub)
      → InvWith (one_more c.command_id extra) s
      → InvWith extra (refuse e c status why message s).1
  unfolding refuse
  refuse-InvWith c status why message extra s v =
      ack_and_finish-InvWith e c.command_id c.node_id status why message extra s v

  store_action-InvWith :
      (c : MotorCommand) (action : ℕ) (extra : Text → ℕ) (s : Hub)
      → InvWith (one_more c.command_id extra) s
      → InvWith extra (store_action e c action s).1
  unfolding store_action
  store_action-InvWith c action extra s v =
      push_pending-InvWith e
        (record {
          command_id = c.command_id;
          node_id = c.node_id;
          action = action;
          duration_ms = c.duration_ms;
          expires_at_epoch_ms = c.expires_at;
        })
        extra s v

  store_parsed-InvWith :
      (c : MotorCommand) (action : ParsedCommandAction) (extra : Text → ℕ) (s : Hub)
      → InvWith (one_more c.command_id extra) s
      → InvWith extra (store_parsed e c action s).1
  unfolding store_parsed
  store_parsed-InvWith c (run_for d) extra s v = elim (Bool-cases (ltb_ℤ d (pos 0))) [
    | inl negative ↦ rw negative (
        refuse-InvWith c failed ble_write_failed (ascii "invalid negative motor duration") extra s
          v)
    | inr fine ↦ rw fine (store_action-InvWith c action_run_for_duration extra s v)
  ]
  store_parsed-InvWith c stop_now extra s v = store_action-InvWith c action_stop extra s v
  store_parsed-InvWith c (unknown raw) extra s v =
      refuse-InvWith c failed ble_write_failed
        (ascii "unsupported motor action value: " ++ decimal_i32 raw) extra s v

  store_new-InvWith :
      (c : MotorCommand) (extra : Text → ℕ) (s : Hub)
      → InvWith (one_more c.command_id extra) s
      → InvWith extra (store_new e c s).1
  unfolding store_new unix_now_ms
  store_new-InvWith c extra s v =
      let s1 : Hub = (unix_now_ms e s).1 in
      elim (Bool-cases (is_expired_at (unix_now_ms e s).0 c.expires_at)) [
        | inl late ↦ rw late (
            refuse-InvWith c expired expired_reason (ascii "command expired before dispatch") extra
              s1 v)
        | inr early ↦ rw early (store_parsed-InvWith c (parse_command_action e c) extra s1 v)
      ]

  store_begun-InvWith :
      (c : MotorCommand) (b : DedupBegin) (extra : Text → ℕ) (s : Hub)
      → (b ≡ new → InvWith (one_more c.command_id extra) s)
      → (b ≢ new → InvWith extra s)
      → InvWith extra (store_begun e c b s).1
  unfolding store_begun
  store_begun-InvWith c new extra s fresh known = store_new-InvWith c extra s (fresh refl)
  store_begun-InvWith c already_processing extra s fresh known = known (λ p. cc)
  store_begun-InvWith c already_processed extra s fresh known = known (λ p. cc)

  -- A duplicate changes nothing that the invariant speaks of; a new id ends stored or refused.
  store_polled_command-InvWith :
      (c : MotorCommand) (extra : Text → ℕ) (s : Hub)
      → InvWith extra s
      → InvWith extra (store_polled_command e c s).1
  unfolding store_polled_command
  store_polled_command-InvWith c extra s v =
      store_begun-InvWith c (begin_command e c.command_id s).0 extra
        (begin_command e c.command_id s).1 (begin_command-InvWith e c.command_id extra s v)
        (begin_command-InvWith_known e c.command_id extra s v)

  store_all-InvWith :
      (cs : List MotorCommand) (extra : Text → ℕ) (s : Hub)
      → InvWith extra s
      → InvWith extra (store_all e cs s).1
  unfolding store_all
  store_all-InvWith [] extra s v = v
  store_all-InvWith (c ∷ cs) extra s v =
      store_all-InvWith cs extra (store_polled_command e c s).1
        (store_polled_command-InvWith c extra s v)

  store_pulled-InvWith :
      (pulled : Option (List MotorCommand)) (extra : Text → ℕ) (s : Hub)
      → InvWith extra s
      → InvWith extra (store_pulled e pulled s).1
  unfolding store_pulled
  store_pulled-InvWith none extra s v = v
  store_pulled-InvWith (some cs) extra s v = store_all-InvWith cs extra s v

  -- A poll keeps the invariant, whatever was pending and whatever the backend sends.
  pub poll_once-InvWith :
      (extra : Text → ℕ) (s : Hub) → InvWith extra s → InvWith extra (poll_once e s).1
  unfolding poll_once pull_commands_once
  poll_once-InvWith extra s v =
      let s1 : Hub = (expire_pending_commands e s).1 in
      store_pulled-InvWith (pull_commands_once e s1).0 extra (pull_commands_once e s1).1
        (expire_pending_commands-InvWith extra s v)
