-- ===== src/MainLoop/Cycle/Limited.antt =====
-- The motor frames of a run of the main loop: src/main.rs.
use hub_core.Base.{ℕ, List, [], ◌∷◌, All-append}
use hub_core.Base.Text.{Text}
use hub_core.Base.Result.{Run, ok, err, panic}
use hub_core.Probe.Scan.{ProbeCandidate, scan_probe_candidates}
use hub_core.Poller.State.{start, Session}
use hub_core.Poller.Polling.{poll_once}
use hub_core.Grpc.{Server, Wire}
use hub_core.MainLoop.Cycle.{
  Air, Main, go_on, poll_commands_in_quiet_window, turn, turns, main_loop,
}
use hub_core.MainLoop.Cycle.Frames.{Wrote, Limited, found, All-Limited, AllLimited, turn-Wrote}

module _ (e : Session) (server : Server) where
  Wrote-AllLimited :
      (cs : List ProbeCandidate) (s t : Main)
      → Wrote cs s t
      → AllLimited e server s
      → AllLimited e server t
  Wrote-AllLimited cs s t (new, h, a) v = rw h (
      All-append (λ (p : Text × List ℕ). Limited p.1) new s.frames (All-Limited e server cs new a)
        v)

  go_on-AllLimited :
      (p : Run (Unit {0}) × Main) (k : Main → Run (Unit {0}) × Main)
      → AllLimited e server p.1
      → ((t : Main) → AllLimited e server t → AllLimited e server (k t).1)
      → AllLimited e server (go_on e server p k).1
  go_on-AllLimited (ok u, t) k v rest = rest t v
  go_on-AllLimited (err x, t) k v rest = elim x [ ]
  go_on-AllLimited (panic, t) k v rest = v

  turns-AllLimited :
      (airs : List Air) (s : Main)
      → AllLimited e server s
      → AllLimited e server (turns e server airs s).1
  unfolding turns
  turns-AllLimited [] s v = v
  turns-AllLimited (air ∷ airs) s v =
      go_on-AllLimited (turn e server air s) (λ t. turns e server airs t)
        (Wrote-AllLimited (found e server (scan_probe_candidates air.adverts air.scan_ends_well)) s
          (turn e server air s).1 (turn-Wrote e server air s) v)
        (λ t w. turns-AllLimited airs t w)

-- Whatever the backend sends, the adverts claim and the probes answer, no run of the hub writes a motor
-- frame from which a probe reads an action other than stop and run, or a duration of more than 5 s.
pub main_loop-AllLimited :
    (e : Session) (server : Server) (airs : List Air) (wire : Wire)
    → AllLimited e server (main_loop e server airs wire).1
unfolding main_loop poll_commands_in_quiet_window
main_loop-AllLimited e server airs wire =
    turns-AllLimited e server airs
      (record { hub = (poll_once e start).1; wire = wire; frames = []; confirmed = [] }) tt
