-- ===== src/Poller/Reachable.antt =====
-- Any run of the poller: polls, completed dispatches and applied reports, in any order.
use hub_core.Base.{◌+◌, arith}
use hub_core.Base.Text.{Text}
use hub_core.Motor.Report.{ProbeMotorResult}
use hub_core.Poller.State.{Session, Hub, DispatchResult, start}
use hub_core.Poller.Polling.{poll_once}
use hub_core.Poller.Dispatch.{complete_dispatched_for_probe, apply_probe_motor_result}
use hub_core.Poller.Invariant.{InvWith, HubInv, Inv-ext, count_id}
use hub_core.Poller.Invariant.Polling.{poll_once-InvWith}
use hub_core.Poller.Invariant.Dispatch.{
  complete_dispatched_for_probe-InvWith, apply_probe_motor_result-InvWith,
}

-- One call of a method by the main loop.
pub data Step (e : Session) (s : Hub) : Hub → Type 0 where
  poll : Step e s (poll_once e s).1
  complete :
      (probe : Text) (r : DispatchResult) → Step e s (complete_dispatched_for_probe e probe r s).1
  apply : (probe : Text) (r : ProbeMotorResult) → Step e s (apply_probe_motor_result e probe r s).1

pub data Reachable (e : Session) : Hub → Type 0 where
  boot : Reachable e start
  next : {s t : Hub} → Reachable e s → Step e s t → Reachable e t

-- What may happen from a state on.
pub data Steps (e : Session) (s : Hub) : Hub → Type 0 where
  stay : Steps e s s
  then_step : {t u : Hub} → Steps e s t → Step e t u → Steps e s u

nothing_more : (s : Hub) → HubInv s → InvWith (λ id. 0) s
nothing_more s v =
    Inv-ext (λ id. count_id id s.pending) (λ id. count_id id s.pending + 0) (λ id. omega arith) v

no_more : (s : Hub) → InvWith (λ id. 0) s → HubInv s
no_more s v =
    Inv-ext (λ id. count_id id s.pending + 0) (λ id. count_id id s.pending) (λ id. omega arith) v

Step-HubInv : (e : Session) (s t : Hub) → Step e s t → HubInv s → HubInv t
Step-HubInv e s t poll v =
    no_more (poll_once e s).1 (poll_once-InvWith e (λ id. 0) s (nothing_more s v))
Step-HubInv e s t (complete probe r) v =
    no_more (complete_dispatched_for_probe e probe r s).1
      (complete_dispatched_for_probe-InvWith e probe r (λ id. 0) s (nothing_more s v))
Step-HubInv e s t (apply probe r) v =
    no_more (apply_probe_motor_result e probe r s).1
      (apply_probe_motor_result-InvWith e probe r (λ id. 0) s (nothing_more s v))

-- Whatever the backend sends, the probes report and the clock reads, in every state that the poller
-- reaches: an id in progress has a pending command; an id for which no report was applied has exactly
-- one pending command if it is in progress and none if it is not; and no id is at once in progress
-- and recorded as finished.
pub Reachable-HubInv : (e : Session) (s : Hub) → Reachable e s → HubInv s
Reachable-HubInv e s boot = record {
  no_leak = λ id h. ground arith;
  once = λ id h. ground arith;
  apart = λ id h. ground arith;
}
Reachable-HubInv e s (next {s = r} reached step) =
    Step-HubInv e r s step (Reachable-HubInv e r reached)
