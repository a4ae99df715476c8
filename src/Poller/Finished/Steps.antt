-- ===== src/Poller/Finished/Steps.antt =====
-- The steps that the methods of `CommandPoller` share (src/polling.rs) leave out a command that was finished
-- within the retention time.
use hub_core.Base.{
  ◌≡◌, ◌<◌, ◌^◌, ℕ, ◌+◌, Bool, true, false, List, [], ◌∷◌, ◌++◌, if◌then◌else◌, arith,
}
use hub_core.Base.Text.{Text, text_eq}
use hub_core.Dedup.{already_processed}
use hub_core.Poller.State.{
  Session, Hub, PendingMotorCommand, MotorCommandStatus, MotorCommandReasonCode,
}
use hub_core.Poller.Actions.{unix_now_ms, begin_command, finish_command, ack_best_effort}
use hub_core.Poller.Invariant.{count_id, count_id-append}
use hub_core.Poller.Finished.{
  Within, ClockWithin, Out, finish_processed-processed, try_begin-processed, try_begin_finished,
}

-- No command of the list has the id.
abbrev pub Without : Text → List PendingMotorCommand → Type 0
Without id cs = count_id id cs ≡ 0

pub not_first :
    (id : Text) (c : PendingMotorCommand) (cs : List PendingMotorCommand)
    → Without id (c ∷ cs)
    → (text_eq id c.command_id ≡ false) × Without id cs
not_first id c cs h = ground arith

pub Without-append :
    (id : Text) (c : PendingMotorCommand) (cs : List PendingMotorCommand)
    → text_eq id c.command_id ≡ false
    → Without id cs
    → Without id (cs ++ c ∷ [])
Without-append id c cs h w = ground (arith, count_id-append id cs (c ∷ []))

if-Within :
    {since : ℕ} (b : Bool) (m n : ℕ)
    → Within since m
    → Within since n
    → Within since (if b then m else n)
if-Within true m n x y = x
if-Within false m n x y = y

module _ (e : Session) (id : Text) (from since : ℕ) (small : since + 300000 < 2 ^ 63)
    (clock : ClockWithin e from since) where
  abbrev Stays : Hub → Type 0
  Stays s = Out id from since s

  pub finish_command-Out : (cid : Text) (s : Hub) → Stays s → Stays (finish_command e cid s).1
  unfolding finish_command unix_now_ms
  finish_command-Out cid s v =
      let (t, at, within_t) = clock s.readings v.later in
      let (u, now, within_u) = clock (s.readings + 1) (omega (arith, v.later)) in
      record {
        seen = if text_eq id cid then t else v.seen;
        recorded =
            rw (at, now)
              (finish_processed-processed since small id cid t u v.seen s.command_dedup v.recorded
                within_t within_u v.recent);
        recent = if-Within (text_eq id cid) t v.seen within_t v.recent;
        absent = v.absent;
        later = omega (arith, v.later);
      }

  pub begin_command-Out : (cid : Text) (s : Hub) → Stays s → Stays (begin_command e cid s).1
  unfolding begin_command unix_now_ms
  begin_command-Out cid s v =
      let (u, now, within_u) = clock s.readings v.later in
      record {
        seen = v.seen;
        recorded = rw now (
            try_begin-processed since small id cid u v.seen s.command_dedup v.recorded within_u
              v.recent);
        recent = v.recent;
        absent = v.absent;
        later = omega (arith, v.later);
      }

  pub begin_finished : (s : Hub) → Stays s → (begin_command e id s).0 ≡ already_processed
  unfolding begin_command unix_now_ms
  begin_finished s v =
      let (u, now, within_u) = clock s.readings v.later in
      rw now
        (try_begin_finished since small id u v.seen s.command_dedup v.recorded within_u v.recent)

  pub read-Out : (s : Hub) → Stays s → Stays (unix_now_ms e s).1
  unfolding unix_now_ms
  read-Out s v = record {
    seen = v.seen;
    recorded = v.recorded;
    recent = v.recent;
    absent = v.absent;
    later = omega (arith, v.later);
  }

  -- Other pending commands, none of them with the id.
  pub with_pending-Out :
      (cs : List PendingMotorCommand) (s : Hub)
      → Without id cs
      → Stays s
      → Stays (record s { poller = record s.poller { pending = cs } })
  with_pending-Out cs s w v = record {
    seen = v.seen;
    recorded = v.recorded;
    recent = v.recent;
    absent = w;
    later = v.later;
  }

  pub ack-Out :
      (cid node : Text) (status : MotorCommandStatus) (why : MotorCommandReasonCode)
      (message : Text) (s : Hub)
      → Stays s
      → Stays (ack_best_effort e cid node status why message s).1
  unfolding ack_best_effort
  ack-Out cid node status why message s v = record {
    seen = v.seen;
    recorded = v.recorded;
    recent = v.recent;
    absent = v.absent;
    later = v.later;
  }
