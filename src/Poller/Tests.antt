-- ===== src/Poller/Tests.antt =====
-- A run of the poller: one command is pulled, its probe executes it and reports. The theorems of the
-- children of Poller on that run.
use hub_core.Base.{arith, ℕ, ◌≡◌, ◌≤◌, refl, true, false, List, [], ◌∷◌, Option, some}
use hub_core.Base.Int.{ℤ, pos}
use hub_core.Base.Text.{Text, ascii, text_eq}
use hub_core.Dedup.{already_processed, try_begin, finish_processed}
use hub_core.Uuid.{expand_command_id}
use hub_core.Motor.Report.{ProbeMotorResult, is_terminal}
use hub_core.Poller.State.{
  MotorCommand, run_for_duration, MotorCommandAction, Outside, Session, Hub, start, now_ms,
  PendingMotorCommand, dispatched,
}
use hub_core.Poller.Judged.{Judged, Finished, expire_pending_commands-Judged}
use hub_core.Poller.Actions.{begin_command}
use hub_core.Poller.Polling.{expire_pending_commands, poll_once}
use hub_core.Poller.Dispatch.{
  find_for_probe, peek_pending_for_probe_uuid, complete_dispatched_for_probe,
  apply_probe_motor_result,
}
use hub_core.Poller.Invariant.{count_id}
use hub_core.Poller.Finished.Dispatch.{finished_stays_out}
use hub_core.Poller.Finished.{ClockWithin}
use hub_core.Poller.Reachable.{poll, then_step, complete, stay}
use hub_core.Poller.Acked.{account, Step-account}
use hub_core.Poller.Reports.{succeeded_ack, executing_hides_the_end, succeeded_still_dispatched}
use hub_core.Poller.Delivery.{settle, complete_dispatched_for_probe-pending}

abbrev id_bytes : List ℕ
id_bytes = 0 ∷ 1 ∷ 35 ∷ 69 ∷ 103 ∷ 137 ∷ 171 ∷ 205 ∷ 239 ∷ 255 ∷ 16 ∷ 32 ∷ 48 ∷ 64 ∷ 80 ∷ 250 ∷ []

abbrev pub id : Text
id = ascii "00012345-6789-abcd-efff-1020304050fa"

abbrev pub probe : Text
probe = ascii "probe-1"

abbrev watering : MotorCommand
watering = record {
  command_id = id;
  node_id = probe;
  action = pos 1;
  duration_ms = pos 3000;
  expires_at = pos 60000;
}

abbrev action_1 : ℤ → Option MotorCommandAction
action_1 a = some run_for_duration

-- The backend gives the command once it is asked, and takes every acknowledgement.
abbrev world : Outside
world = record {
  clock = λ n. some 1000;
  runtime_builds = λ n. true;
  connects = λ n jwt. true;
  ack_motor_command_event = λ n r. true;
  pull_pending_motor_commands = λ n hub. some (watering ∷ []);
  action_of_i32 = action_1;
}

abbrev pub session : Session
session = record { outside = world; hub_device_id = ascii "hub"; jwt = ascii "jwt" }

abbrev pending_watering : PendingMotorCommand
pending_watering = record {
  command_id = id;
  node_id = probe;
  action = 1;
  duration_ms = pos 3000;
  expires_at_epoch_ms = pos 60000;
}

abbrev pub report : ℕ → ProbeMotorResult
report status = record { status = status; reason_code = 1; command_id = id_bytes }

abbrev pub polled : Hub
polled = (poll_once session start).1

polled_test : polled.pending ≡ pending_watering ∷ []
unfolding poll_once try_begin
polled_test = refl

pub expand_test : expand_command_id id_bytes ≡ some id
unfolding expand_command_id
expand_test = refl

Step-account_example :
    account id polled ≤ account id (complete_dispatched_for_probe session probe dispatched polled).1
Step-account_example =
    Step-account session id polled (complete_dispatched_for_probe session probe dispatched polled).1
      (complete probe dispatched)

complete_dispatched_for_probe-pending_example :
    (complete_dispatched_for_probe session probe dispatched polled).1.pending
    ≡ settle session polled probe dispatched (find_for_probe probe polled.pending)
complete_dispatched_for_probe-pending_example =
    complete_dispatched_for_probe-pending session probe dispatched polled

-- A clock that passes the command's expiry.
abbrev later : Session
later = record session { outside = record world { clock = λ n. some 60000 } }

late_test : (expire_pending_commands later polled).1.pending ≡ []
unfolding expire_pending_commands poll_once try_begin
late_test = refl

expire_pending_commands-Judged_example :
    let t = (expire_pending_commands later polled).1 in
    (gone : List PendingMotorCommand) × Judged later polled.readings polled.calls polled.pending
      polled.acks t.pending gone t.acks
    × Finished gone polled t
expire_pending_commands-Judged_example = expire_pending_commands-Judged later polled

fresh_test : polled.applied_probe_results id ≡ false
unfolding poll_once try_begin
fresh_test = refl

abbrev executed : Hub
executed = (apply_probe_motor_result session probe (report 4) polled).1

executing_hides_the_end_example :
    apply_probe_motor_result session probe (report 6) executed ≡ (tt, executed)
unfolding is_terminal
executing_hides_the_end_example =
    executing_hides_the_end session probe probe id (report 4) (report 6) polled executed refl
      expand_test fresh_test refl stay refl refl

found_test : find_for_probe probe polled.pending ≡ some pending_watering
unfolding poll_once find_for_probe try_begin text_eq
found_test = refl

succeeded_still_dispatched_example :
    let t = (apply_probe_motor_result session probe (report 5) polled).1 in
    (t.acks ≡ (succeeded_ack session id probe, true) ∷ polled.acks)
    × (t.command_dedup.processing id ≡ false)
    × (t.command_dedup.processed id ≡ some (now_ms (session.clock polled.readings)))
    × (t.pending ≡ polled.pending)
    × (peek_pending_for_probe_uuid probe t.poller
        ≡ some (record {
          command_id = id;
          action = 1;
          duration_ms = pos 3000;
          expires_at_epoch_ms = pos 60000;
        }))
succeeded_still_dispatched_example =
    succeeded_still_dispatched session probe id (report 5) pending_watering polled refl expand_test
      fresh_test refl found_test refl (ground arith)

-- Its command was written to the probe and acknowledged; the backend gives it again.
abbrev handed_over : Hub
handed_over = (complete_dispatched_for_probe session probe dispatched polled).1

abbrev seen : ℕ
seen = 1000

handed_over_test :
    (handed_over.command_dedup.processed id ≡ some (pos seen))
    × (count_id id handed_over.pending ≡ 0)
unfolding complete_dispatched_for_probe poll_once try_begin finish_processed text_eq
handed_over_test = (refl, refl)

steady : ClockWithin session handed_over.readings seen
steady n past = (seen, refl, (omega arith, omega arith))

finished_stays_out_example :
    let t = (poll_once session handed_over).1 in
    (count_id id t.pending ≡ 0) × ((begin_command session id t).0 ≡ already_processed)
finished_stays_out_example =
    finished_stays_out session id seen seen handed_over (poll_once session handed_over).1
      (omega arith) steady handed_over_test.0 (omega arith, omega arith) handed_over_test.1
      (then_step stay poll)
