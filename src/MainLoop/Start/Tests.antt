-- ===== src/MainLoop/Start/Tests.antt =====
-- The theorem of MainLoop.Start on a hub that is set up and starts again, with another build.
use hub_core.Base.{◌≡◌, ◌≢◌, refl, true, [], ◌∷◌, arith}
use hub_core.Base.Text.{ascii, text_eq}
use hub_core.Base.Result.{ok}
use hub_core.Probe.Scan.{scan_probe_candidates}
use hub_core.Provisioning.Run.{ProvisionedHub}
use hub_core.Provisioning.Run.Tests.{driver, radio, ticks}
use hub_core.Net.Sntp.{synced, get_sync_sntp}
use hub_core.Net.Wifi.{connect}
use hub_core.Storage.Cells.{Cells, flash, flash-Laws, flash-HasRoom}
use hub_core.Storage.Identity.{write_hub_jwt}
use hub_core.Claim.Tests.{Register, auth, fresh, first_boot, later_boot}
use hub_core.Grpc.Tests.{server, quiet}
use hub_core.MainLoop.Start.{Power, running, restarting, Hardware, start_hub}
use hub_core.MainLoop.Start.Restart.{start-restart}

abbrev first_power : Power
first_power = record { driver = driver; boot = first_boot; advertises = true; ticks = ticks }

abbrev later_power : Power
later_power = record { driver = driver; boot = later_boot; advertises = true; ticks = [] }

abbrev hardware : Hardware Cells Register
hardware = record { world = fresh; wire = quiet; radio = radio }

-- The probe's own identifier could not be read.
abbrev hub : ProvisionedHub
hub = record {
  credentials = record { ssid = ascii "garden"; password = ascii "secret" };
  hub_device_id = ascii "id";
  jwt = ascii "jwt";
  setup_probes =
      record { probe_uuid = 1 ∷ []; name = ascii "BED-1"; version_major = 1; version_minor = 2 }
      ∷ [];
}

restarting_test : (start_hub flash auth server first_power hardware).0 ≡ restarting hub
unfolding start_hub text_eq write_hub_jwt scan_probe_candidates
restarting_test = refl

named : hub.credentials.ssid ≢ []
named e = ground arith

joined_test : (connect driver (ascii "garden") radio).0 ≡ ok tt
unfolding connect text_eq
joined_test = refl

synced_test : (get_sync_sntp true (λ n. true)).0 ≡ synced 1
unfolding get_sync_sntp
synced_test = refl

start-restart_example :
    start_hub flash auth server later_power
      (record (start_hub flash auth server first_power hardware).1 { radio = radio })
    ≡ (
      running hub.credentials (ascii "id", ascii "jwt"),
      record (start_hub flash auth server first_power hardware).1 {
        radio = (connect driver (ascii "garden") radio).1;
      },
    )
start-restart_example =
    start-restart flash auth server first_power later_power hardware hub radio 1 flash-Laws
      flash-HasRoom restarting_test named refl joined_test synced_test
