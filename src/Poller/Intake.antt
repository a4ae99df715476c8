-- ===== src/Poller/Intake.antt =====
-- What becomes of a command that is pulled: src/polling.rs, `store_polled_command`.
use hub_core.Base.{
  if◌then◌else◌, ◌||◌, ℕ, ◌+◌, ◌≡◌, ◌⊎◌, Bool, true, false, ◌||◌, List, [], ◌∷◌, ◌++◌, Option, none,
  some,
}
use hub_core.Base.Int.{leb_ℤ, ℤ, pos, ◌≤ℤ◌, ◌<ℤ◌, ◌-ℤ◌}
use hub_core.Base.Text.{Text, ascii, text_eq}
use hub_core.Dedup.Begin.{IsRemembered, IsForgotten}
use hub_core.Poller.State.{
  Session, Hub, AckRequest, MotorCommand, PendingMotorCommand, MotorCommandStatus,
  MotorCommandReasonCode, run_for_duration, stop, unspecified, failed, expired, expired_reason,
  ble_write_failed,
}
use hub_core.Poller.Polling.{decimal_i32}
use hub_core.Poller.Judged.{IsLate, IsLive, time_at, goes_through}

-- A command that is pulled is a duplicate, or refused with an acknowledgement, or becomes pending.
pub data Decision : Type 0 where
  duplicate : Decision
  refused : AckRequest → Decision
  accepted : PendingMotorCommand → Decision

module _ (e : Session) (c : MotorCommand) (s : Hub) where
  abbrev pub refusal : MotorCommandStatus → MotorCommandReasonCode → Text → Decision
  refusal status reason message = refused (record {
    command_id = c.command_id;
    hub_id = e.hub_device_id;
    node_id = c.node_id;
    status = status;
    reason_code = reason;
    reason_message = message;
  })

  -- The action is the number of the frame: 0 to stop, 1 to run.
  abbrev pub taken : ℕ → Decision
  taken action = accepted (record {
    command_id = c.command_id;
    node_id = c.node_id;
    action = action;
    duration_ms = c.duration_ms;
    expires_at_epoch_ms = c.expires_at;
  })

  -- At the first reading of the clock.
  abbrev pub WasFinished : Type 0
  WasFinished = IsRemembered (time_at e s.readings) c.command_id s.command_dedup

  abbrev pub NotFinished : Type 0
  NotFinished = IsForgotten (time_at e s.readings) c.command_id s.command_dedup

  abbrev pub IsFresh : Type 0
  IsFresh = NotFinished × (s.command_dedup.processing c.command_id ≡ false)

  -- At the second reading of the clock.
  abbrev pub IsOpen : Type 0
  IsOpen = IsFresh × IsLive (time_at e (s.readings + 1)) c.expires_at

  -- When each decision is taken.
  pub data Decides : Decision → Type 0 where
    finished_before : WasFinished → Decides duplicate
    in_progress : NotFinished → s.command_dedup.processing c.command_id ≡ true → Decides duplicate
    too_late :
        IsFresh
        → IsLate (time_at e (s.readings + 1)) c.expires_at
        → Decides (refusal expired expired_reason (ascii "command expired before dispatch"))
    no_action :
        IsOpen
        → ((e.action_of_i32 c.action ≡ none) ⊎ (e.action_of_i32 c.action ≡ some unspecified))
        → Decides (
            refusal failed ble_write_failed
              (ascii "unsupported motor action value: " ++ decimal_i32 c.action))
    negative_run :
        IsOpen
        → e.action_of_i32 c.action ≡ some run_for_duration
        → c.duration_ms <ℤ pos 0
        → Decides (refusal failed ble_write_failed (ascii "invalid negative motor duration"))
    to_run :
        IsOpen
        → e.action_of_i32 c.action ≡ some run_for_duration
        → pos 0 ≤ℤ c.duration_ms
        → Decides (taken 1)
    to_stop : IsOpen → e.action_of_i32 c.action ≡ some stop → Decides (taken 0)

  -- The pending commands, and the acknowledgements that were tried.
  abbrev pub pending_by : Decision → List PendingMotorCommand
  pending_by duplicate = s.pending
  pending_by (refused r) = s.pending
  pending_by (accepted p) = s.pending ++ p ∷ []

  abbrev pub acks_by : Decision → List (AckRequest × Bool)
  acks_by duplicate = s.acks
  acks_by (refused r) = (r, goes_through e s.calls r) ∷ s.acks
  acks_by (accepted p) = s.acks

  -- Whether an id is in progress.
  abbrev pub processing_by : Decision → Text → Bool
  processing_by duplicate id = s.command_dedup.processing id
  processing_by (refused r) id = s.command_dedup.processing id
  processing_by (accepted p) id = text_eq id c.command_id || s.command_dedup.processing id

  -- The record of a refusal: at the third reading of the clock, unless the fourth is more than 300 s later.
  abbrev pub record_of_refusal : Option ℤ
  record_of_refusal =
      if leb_ℤ (time_at e (s.readings + 2 + 1) -ℤ time_at e (s.readings + 2)) (pos 300000)
      then some (time_at e (s.readings + 2))
      else none

  abbrev pub IsRecorded : Decision → Hub → Type 0
  IsRecorded duplicate t = Unit {0}
  IsRecorded (refused x) t = t.command_dedup.processed c.command_id ≡ record_of_refusal
  IsRecorded (accepted p) t = Unit {0}

  abbrev pub TakenIn : Decision → Hub → Type 0
  TakenIn d t =
      (t.pending ≡ pending_by d)
      × (t.acks ≡ acks_by d)
      × ((id : Text) → t.command_dedup.processing id ≡ processing_by d id)
      × IsRecorded d t

-- What holds of the hub once `begin_command` has called the id new.
module _ (e : Session) (c : MotorCommand) (s : Hub) where
  record Begun (m : Hub) : Type 0 where
    pending_same : m.pending ≡ s.pending
    acks_same : m.acks ≡ s.acks
    calls_same : m.calls ≡ s.calls
    read : m.readings ≡ s.readings + 2
    busy :
        (id : Text)
        → m.command_dedup.processing id ≡ (text_eq id c.command_id || s.command_dedup.processing id)

  abbrev Decided : Hub → Type 0
  Decided t = (d : Decision) × Decides e c s d × TakenIn e c s d t
