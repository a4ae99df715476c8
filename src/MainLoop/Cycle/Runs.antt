-- ===== src/MainLoop/Cycle/Runs.antt =====
-- Runs of the main loop: src/main.rs.
use hub_core.Base.{◌≡◌, refl, List, [], ◌∷◌, arith}
use hub_core.Base.Result.{Run, ok, err, panic}
use hub_core.Poller.State.{Session, Hub, start}
use hub_core.Poller.Polling.{poll_once}
use hub_core.Poller.Invariant.{HubInv}
use hub_core.Poller.Reachable.{poll, complete, apply, Reachable, boot, next, Reachable-HubInv}
use hub_core.Grpc.{Server, Wire}
use hub_core.MainLoop.Cycle.{
  Air, Main, go_on, poll_commands_in_quiet_window, turn, turns, main_loop,
}
use hub_core.MainLoop.Cycle.Ends.{Visits, none_yet, completed, applied, turn-Polled}

module _ (e : Session) (server : Server) where
  Visits-Reachable : (s t : Hub) → Visits e s t → Reachable e s → Reachable e t
  Visits-Reachable s t none_yet r = r
  Visits-Reachable s t (completed {t = mid} probe x v) r =
      next (Visits-Reachable s mid v r) (complete probe x)
  Visits-Reachable s t (applied {t = mid} probe x v) r =
      next (Visits-Reachable s mid v r) (apply probe x)

  turn-Reachable :
      (air : Air) (s : Main) → Reachable e s.hub → Reachable e (turn e server air s).1.hub
  turn-Reachable air s r =
      let (o, mid, v, last) = turn-Polled e server air s in
      rw last (next (Visits-Reachable s.hub mid v r) poll)

  -- It goes on, and leaves the poller in a state that it can reach.
  pub Sound : Run (Unit {0}) × Main → Type 0
  Sound p = (p.0 ≡ ok tt) × Reachable e p.1.hub

  go_on-Sound :
      (p : Run (Unit {0}) × Main) (k : Main → Run (Unit {0}) × Main)
      → Sound p
      → ((t : Main) → Reachable e t.hub → Sound (k t))
      → Sound (go_on e server p k)
  unfolding Sound
  go_on-Sound (ok u, t) k (o, r) rest = rest t r
  go_on-Sound (err x, t) k (o, r) rest = elim x [ ]
  go_on-Sound (panic, t) k (o, r) rest = absurd (ground arith)

  turns-Sound : (airs : List Air) (s : Main) → Reachable e s.hub → Sound (turns e server airs s)
  unfolding turns Sound
  turns-Sound [] s r = (refl, r)
  turns-Sound (air ∷ airs) s r =
      go_on-Sound (turn e server air s) (λ t. turns e server airs t)
        ((turn-Polled e server air s).0, turn-Reachable air s r) (λ t r'. turns-Sound airs t r')

-- The hub runs through any number of turns without a panic, whatever it hears and whatever the probes and
-- the backend answer, and behind them its poller satisfies the invariant `HubInv`.
pub main_loop-HubInv :
    (e : Session) (server : Server) (airs : List Air) (wire : Wire)
    → ((main_loop e server airs wire).0 ≡ ok tt) × HubInv (main_loop e server airs wire).1.hub
unfolding main_loop poll_commands_in_quiet_window Sound
main_loop-HubInv e server airs wire =
    let first : Main = record {
      hub = (poll_once e start).1;
      wire = wire;
      frames = [];
      confirmed = [];
    } in
    let (o, r) = turns-Sound e server airs first (next boot poll) in
    (o, Reachable-HubInv e (turns e server airs first).1.hub r)
