-- ===== src/Grpc/Motor/Carried.antt =====
-- What the poller of src/polling.rs puts on the wire over a run.
use mathlib.Core.List.{Sublistᴰ}
use mathlib.Core.List.Sublistᴰ.{slnil, cons, cons-cons}
use hub_core.Base.{
  Bool-cases, inl, inr, ◌&&◌, ◌≡◌, refl, sym, ◌∙◌, ℕ, ◌+◌, ◌≤◌, Bool, true, false, List, [], ◌∷◌,
  if◌then◌else◌, length, arith,
}
use hub_core.Base.Text.{Text}
use hub_core.Poller.State.{AckRequest, Hub}
use hub_core.Poller.Reachable.{Reachable}
use hub_core.Poller.Calls.{Acks, Called, no_call, try_ack, try_pull, Reachable-Called}
use hub_core.Grpc.{Request, pull_pending_motor_commands, ack_motor_command_event, Wire, bearer}
use hub_core.Grpc.Motor.{ack_once, pull_commands_once}
use hub_core.Grpc.Motor.Calls.{
  connects_at, reaches, pull_request, goes_through, ack_request, ack_once_lem,
  pull_commands_once_lem,
}
use hub_core.Grpc.Motor.Refines.{InStep, Setting, session_of, at_call, ack-InStep, pull-InStep}

abbrev pub wire_at : Setting → Wire
wire_at x = record { calls = x.first; sent = [] }

-- The calls of `ack_once` and `pull_commands_once` in some order: how many, what came of the
-- acknowledgements, and the wire behind them.
pub data Carried (x : Setting) : ℕ → Acks → Wire → Type 0 where
  nothing : Carried x 0 [] (wire_at x)
  acked :
      {n : ℕ} {l : Acks} {w : Wire}
      → Carried x n l w
      → (r : AckRequest)
      → Carried x
          (n + 1)
          ((r, goes_through (ack_once x.server x.jwt r w).0) ∷ l)
          (ack_once x.server x.jwt r w).1
  pulled :
      {n : ℕ} {l : Acks} {w : Wire}
      → Carried x n l w
      → Carried x (n + 1) l (pull_commands_once x.server x.jwt x.hub_device_id w).1

-- The messages of the acknowledgements that succeeded, the newest first.
pub succeeded_acks : Setting → Acks → List (Text × Request)
succeeded_acks x [] = []
succeeded_acks x ((r, true) ∷ rest) =
    (bearer x.jwt, ack_motor_command_event (ack_request x.server x.jwt r)) ∷ succeeded_acks x rest
succeeded_acks x ((r, false) ∷ rest) = succeeded_acks x rest

and_three : (a b c d : Bool) → (a && (b && (c && d))) ≡ true → (a && (b && c)) ≡ true
and_three a b c d h = ground arith

-- A message or none in front of what was sent.
module _ (x : Setting) where
  abbrev Sent : ℕ → Acks → Wire → Type 0
  Sent n l w = Sublistᴰ (succeeded_acks x l) w.sent × (length w.sent ≤ n)

  sent_more :
      (t : Bool) (m : Text × Request) (n : ℕ) (sent : List (Text × Request))
      → length sent ≤ n
      → length (if t then m ∷ sent else sent) ≤ n + 1
  sent_more true m n sent h = omega arith
  sent_more false m n sent h = omega arith

  sent_over :
      (t : Bool) (m : Text × Request) (l sent : List (Text × Request))
      → Sublistᴰ l sent
      → Sublistᴰ l (if t then m ∷ sent else sent)
  sent_over true m l sent h = cons h
  sent_over false m l sent h = h

  -- A success was sent.
  success_reaches :
      (r : AckRequest) (w : Wire)
      → goes_through (ack_once x.server x.jwt r w).0 ≡ true
      → reaches x.server x.jwt w.calls ≡ true
  success_reaches r w h =
      let (result, calls, sent) = ack_once_lem x.server x.jwt r w in
      and_three (x.server.runtime_builds w.calls) (connects_at x.server x.jwt w.calls)
        (x.server.is_ready (w.calls + 1)) _ (sym result ∙ h)

  acked-Sent :
      (r : AckRequest) (n : ℕ) (l : Acks) (w : Wire)
      → Sent n l w
      → Sent
          (n + 1)
          ((r, goes_through (ack_once x.server x.jwt r w).0) ∷ l)
          (ack_once x.server x.jwt r w).1
  unfolding succeeded_acks
  acked-Sent r n l w (within, few) =
      let (result, calls, sent) = ack_once_lem x.server x.jwt r w in
      let m : Text × Request =
        (bearer x.jwt, ack_motor_command_event (ack_request x.server x.jwt r)) in
      elim (Bool-cases (goes_through (ack_once x.server x.jwt r w).0)) [
        | inl gone ↦ rw (gone, sent, success_reaches r w gone) (cons-cons refl within, omega arith)
        | inr lost ↦
            rw (lost, sent)
              (
                sent_over (reaches x.server x.jwt w.calls) m (succeeded_acks x l) w.sent within,
                sent_more (reaches x.server x.jwt w.calls) m n w.sent few,
              )
      ]

  Carried-Sent : (n : ℕ) (l : Acks) (w : Wire) → Carried x n l w → Sent n l w
  unfolding succeeded_acks
  Carried-Sent n l w nothing = (slnil, omega arith)
  Carried-Sent n l w (acked {n = k} {l = m} {w = v} before r) =
      acked-Sent r k m v (Carried-Sent k m v before)
  Carried-Sent n l w (pulled {n = k} {w = v} before) =
      let (within, few) = Carried-Sent k l v before in
      let (result, calls, sent) = pull_commands_once_lem x.server x.jwt x.hub_device_id v in
      let m : Text × Request =
        (bearer x.jwt, pull_pending_motor_commands (pull_request x.hub_device_id)) in
      rw sent (
        sent_over (reaches x.server x.jwt v.calls) m (succeeded_acks x l) v.sent within,
        sent_more (reaches x.server x.jwt v.calls) m k v.sent few,
      )

  abbrev On : ℕ → Acks → Type 0
  On n l = (w : Wire) × Carried x n l w × (w.calls ≡ at_call x n)

  Called-Carried : (n : ℕ) (l : Acks) → Called (session_of x) 0 [] n l → On n l
  unfolding at_call
  Called-Carried n l no_call = (wire_at x, nothing, refl)
  Called-Carried n l (try_ack {n = k} {m = m} before r) =
      let (w, c, h) = Called-Carried k m before in
      let (same, behind) = ack-InStep x r k w h in
      ((ack_once x.server x.jwt r w).1, rw (sym same) (acked c r), behind)
  Called-Carried n l (try_pull {n = k} before) =
      let (w, c, h) = Called-Carried k l before in
      ((pull_commands_once x.server x.jwt x.hub_device_id w).1, pulled c, (pull-InStep x k w h).1)

-- Whatever the poller does over a run, its calls are calls of `ack_once` and `pull_commands_once`, one behind
-- the other, with the results that it has on record for the acknowledgements. Each that it counts as
-- sent was put on the wire with the hub's token, in that order, and no call puts more than one message there.
pub Reachable-Carried :
    (x : Setting) (s : Hub)
    → Reachable (session_of x) s
    → (w : Wire) × Carried x s.calls s.acks w
      × InStep x s w
      × Sublistᴰ (succeeded_acks x s.acks) w.sent
      × (length w.sent ≤ s.calls)
Reachable-Carried x s r =
    let (w, c, h) = Called-Carried x s.calls s.acks (Reachable-Called (session_of x) s r) in
    let (within, few) = Carried-Sent x s.calls s.acks w c in (w, c, h, within, few)
