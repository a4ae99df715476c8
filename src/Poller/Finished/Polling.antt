-- ===== src/Poller/Finished/Polling.antt =====
-- `poll_once` of src/polling.rs leaves out a command that was finished within the retention time.
use hub_core.Base.{
  ◌≡◌, ◌<◌, ◌^◌, refl, ℕ, ◌+◌, false, List, [], ◌∷◌, ◌++◌, Option, none, some, arith, Bool-cases,
  inl, inr,
}
use hub_core.Base.Int.{pos, ltb_ℤ}
use hub_core.Base.Text.{Text, text_eq, text_eq_iff}
use hub_core.Dedup.{DedupBegin, new, already_processing, already_processed}
use hub_core.Poller.State.{
  Session, Hub, MotorCommand, PendingMotorCommand, MotorCommandStatus, MotorCommandReasonCode,
}
use hub_core.Poller.Actions.{
  unix_now_ms, begin_command, finish_command, ack_best_effort, push_pending, take_pending,
  is_expired_at,
}
use hub_core.Poller.Polling.{
  ParsedCommandAction, run_for, stop_now, unknown, refuse, store_action, expire, expire_one,
  expire_loop, expire_pending_commands, parse_command_action, store_parsed, store_new, store_begun,
  store_polled_command, store_all, store_pulled, pull_commands_once, poll_once,
}
use hub_core.Poller.Finished.Steps.{
  Without, not_first, Without-append, finish_command-Out, begin_command-Out, begin_finished,
  read-Out, with_pending-Out, ack-Out,
}
use hub_core.Poller.Finished.{ClockWithin, Out}

module _ (e : Session) (id : Text) (from since : ℕ) (small : since + 300000 < 2 ^ 63)
    (clock : ClockWithin e from since) where
  abbrev Stays : Hub → Type 0
  Stays s = Out id from since s

  ack_and_finish-Out :
      (cid node : Text) (status : MotorCommandStatus) (why : MotorCommandReasonCode)
      (message : Text) (s : Hub)
      → Stays s
      → Stays (finish_command e cid (ack_best_effort e cid node status why message s).1).1
  ack_and_finish-Out cid node status why message s v =
      finish_command-Out e id from since small clock cid
        (ack_best_effort e cid node status why message s).1
        (ack-Out e id from since small clock cid node status why message s v)

  push_pending-Out :
      (c : PendingMotorCommand) (s : Hub)
      → text_eq id c.command_id ≡ false
      → Stays s
      → Stays (push_pending c s).1
  push_pending-Out c s other v =
      with_pending-Out e id from since small clock (s.pending ++ c ∷ []) s
        (Without-append id c s.pending other v.absent) v

  expire_one-Out :
      (c : PendingMotorCommand) (s : Hub)
      → text_eq id c.command_id ≡ false
      → Stays s
      → Stays (expire_one e c s).1
  unfolding expire_one expire
  expire_one-Out c s other v =
      let t : Hub = (unix_now_ms e s).1 in
      let w : Stays t = read-Out e id from since small clock s v in
      elim (Bool-cases (is_expired_at (unix_now_ms e s).0 c.expires_at_epoch_ms)) [
        | inl late ↦ rw late (ack_and_finish-Out c.command_id c.node_id _ _ _ t w)
        | inr live ↦ rw live (push_pending-Out c t other w)
      ]

  expire_loop-Out :
      (cs : List PendingMotorCommand) (s : Hub)
      → Without id cs
      → Stays s
      → Stays (expire_loop e cs s).1
  unfolding expire_loop
  expire_loop-Out [] s none_there v = v
  expire_loop-Out (c ∷ cs) s none_there v =
      let (other, rest) = not_first id c cs none_there in
      expire_loop-Out cs (expire_one e c s).1 rest (expire_one-Out c s other v)

  store_parsed-Out :
      (c : MotorCommand) (a : ParsedCommandAction) (s : Hub)
      → text_eq id c.command_id ≡ false
      → Stays s
      → Stays (store_parsed e c a s).1
  unfolding store_parsed refuse store_action
  store_parsed-Out c (run_for d) s other v = elim (Bool-cases (ltb_ℤ d (pos 0))) [
    | inl negative ↦ rw negative (ack_and_finish-Out c.command_id c.node_id _ _ _ s v)
    | inr fits ↦ rw fits (push_pending-Out _ s other v)
  ]
  store_parsed-Out c stop_now s other v = push_pending-Out _ s other v
  store_parsed-Out c (unknown raw) s other v = ack_and_finish-Out c.command_id c.node_id _ _ _ s v

  store_new-Out :
      (c : MotorCommand) (s : Hub)
      → text_eq id c.command_id ≡ false
      → Stays s
      → Stays (store_new e c s).1
  unfolding store_new refuse
  store_new-Out c s other v =
      let t : Hub = (unix_now_ms e s).1 in
      let w : Stays t = read-Out e id from since small clock s v in
      elim (Bool-cases (is_expired_at (unix_now_ms e s).0 c.expires_at)) [
        | inl late ↦ rw late (ack_and_finish-Out c.command_id c.node_id _ _ _ t w)
        | inr live ↦ rw live (store_parsed-Out c (parse_command_action e c) t other w)
      ]

  store_begun-Out :
      (c : MotorCommand) (b : DedupBegin) (s : Hub)
      → (b ≡ new → text_eq id c.command_id ≡ false)
      → Stays s
      → Stays (store_begun e c b s).1
  unfolding store_begun
  store_begun-Out c new s other v = store_new-Out c s (other refl) v
  store_begun-Out c already_processing s other v = v
  store_begun-Out c already_processed s other v = v

  -- Only another id is new.
  new_is_other :
      (cid : Text) (s : Hub) → Stays s → (begin_command e cid s).0 ≡ new → text_eq id cid ≡ false
  new_is_other cid s v fresh = elim (Bool-cases (text_eq id cid)) [
    | inr other ↦ other
    | inl same ↦
        let equal : id ≡ cid = ground (arith, text_eq_iff id cid) in
        let known = begin_finished e id from since small clock s v in absurd (cc)
  ]

  store_polled_command-Out :
      (c : MotorCommand) (s : Hub) → Stays s → Stays (store_polled_command e c s).1
  unfolding store_polled_command
  store_polled_command-Out c s v =
      let begun = begin_command e c.command_id s in
      store_begun-Out c begun.0 begun.1 (new_is_other c.command_id s v)
        (begin_command-Out e id from since small clock c.command_id s v)

  store_all-Out : (cs : List MotorCommand) (s : Hub) → Stays s → Stays (store_all e cs s).1
  unfolding store_all
  store_all-Out [] s v = v
  store_all-Out (c ∷ cs) s v =
      store_all-Out cs (store_polled_command e c s).1 (store_polled_command-Out c s v)

  store_pulled-Out :
      (pulled : Option (List MotorCommand)) (s : Hub) → Stays s → Stays (store_pulled e pulled s).1
  unfolding store_pulled
  store_pulled-Out none s v = v
  store_pulled-Out (some cs) s v = store_all-Out cs s v

  pull-Out : (s : Hub) → Stays s → Stays (pull_commands_once e s).1
  unfolding pull_commands_once
  pull-Out s v = record {
    seen = v.seen;
    recorded = v.recorded;
    recent = v.recent;
    absent = v.absent;
    later = v.later;
  }

  pub poll_once-Out : (s : Hub) → Stays s → Stays (poll_once e s).1
  unfolding poll_once expire_pending_commands
  poll_once-Out s v =
      let taken : Stays (take_pending s).1 =
        with_pending-Out e id from since small clock [] s refl v in
      let t : Hub = (expire_loop e s.pending (take_pending s).1).1 in
      let pulled = pull_commands_once e t in
      store_pulled-Out pulled.0 pulled.1
        (pull-Out t (expire_loop-Out s.pending (take_pending s).1 v.absent taken))
