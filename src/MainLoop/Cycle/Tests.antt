-- ===== src/MainLoop/Cycle/Tests.antt =====
-- The theorems of MainLoop.Cycle on two turns: one that hears a probe in setup mode and one at work, and
-- one whose scan fails.
use hub_core.Base.{◌≡◌, refl, true, false, [], ◌∷◌, ◌++◌, some, length}
use hub_core.Base.Text.{ascii}
use hub_core.Dedup.{try_begin}
use hub_core.Uuid.{parse_uuid_compact_bytes}
use hub_core.Motor.Command.{write_payload}
use hub_core.Base.Result.{ok}
use hub_core.Probe.Adverts.{company_id, magic_marker}
use hub_core.Probe.Scan.{Advert, scan_probe_candidates}
use hub_core.Probe.Tests.{adverts}
use hub_core.Poller.State.{start}
use hub_core.Poller.Polling.{poll_once}
use hub_core.Poller.Invariant.{HubInv}
use hub_core.Poller.Tests.{session, probe}
use hub_core.Ble.Tests.{device}
use hub_core.Grpc.Tests.{server, quiet}
use hub_core.MainLoop.Cycle.{Air, Main, turn, main_loop}
use hub_core.MainLoop.Cycle.Ends.{Polled, turn-Polled}
use hub_core.MainLoop.Cycle.Runs.{main_loop-HubInv}
use hub_core.MainLoop.Cycle.Frames.{Wrote, found, AllLimited, turn-Wrote}
use hub_core.MainLoop.Cycle.Limited.{main_loop-AllLimited}

abbrev working : Advert
working = record {
  addr = 3 ∷ [];
  name = some (ascii "BED-3");
  manufacture_data = some (company_id, magic_marker ++ 1 ∷ 2 ∷ []);
}

abbrev busy_air : Air
busy_air = record {
  adverts = working ∷ adverts;
  scan_ends_well = true;
  device_at = λ addr. record device { addr = probe };
}

abbrev deaf_air : Air
deaf_air = record busy_air { scan_ends_well = false }

abbrev booted : Main
booted = record { hub = (poll_once session start).1; wire = quiet; frames = []; confirmed = [] }

turn-Polled_example : Polled session server booted (turn session server busy_air booted)
turn-Polled_example = turn-Polled session server busy_air booted

main_loop-HubInv_example :
    ((main_loop session server (busy_air ∷ deaf_air ∷ []) quiet).0 ≡ ok tt)
    × HubInv (main_loop session server (busy_air ∷ deaf_air ∷ []) quiet).1.hub
main_loop-HubInv_example = main_loop-HubInv session server (busy_air ∷ deaf_air ∷ []) quiet

turn-Wrote_example :
    Wrote
      (found session server (scan_probe_candidates (working ∷ adverts) true))
      booted
      (turn session server busy_air booted).1
turn-Wrote_example = turn-Wrote session server busy_air booted

main_loop-AllLimited_example :
    AllLimited session server (main_loop session server (busy_air ∷ deaf_air ∷ []) quiet).1
main_loop-AllLimited_example = main_loop-AllLimited session server (busy_air ∷ deaf_air ∷ []) quiet

-- The probe at work gets the pending command.
frame_written_test : length (turn session server busy_air booted).1.frames ≡ 1
unfolding turn try_begin parse_uuid_compact_bytes write_payload
frame_written_test = refl
