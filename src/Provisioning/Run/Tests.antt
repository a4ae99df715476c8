-- ===== src/Provisioning/Run/Tests.antt =====
-- The theorems of Provisioning.Run on a phone that writes a name, and later a name and a password.
use hub_core.Base.{◌≡◌, refl, ℕ, Bool, true, false, List, [], ◌∷◌, ◌++◌, map, some}
use hub_core.Base.Text.{ascii, text_eq}
use hub_core.Base.Result.{ok}
use hub_core.Probe.Scan.{scan_probe_candidates}
use hub_core.Probe.Tests.{adverts}
use hub_core.Provisioning.Credentials.{text_written}
use hub_core.Provisioning.ProbeList.{SetupProbe}
use hub_core.Ble.Tests.{device}
use hub_core.Net.Wifi.{Driver, Radio, connect_for_provisioning}
use hub_core.Storage.Cells.{Cells, flash}
use hub_core.Storage.Identity.{write_hub_jwt}
use hub_core.Claim.{claim_hub_after_time_sync}
use hub_core.Claim.Tests.{Register, auth, fresh, first_boot}
use hub_core.Grpc.Tests.{server, quiet}
use hub_core.Provisioning.Run.{
  ssid_written, password_written, Tick, Prov, Outcome, waiting, provisioned, run,
}
use hub_core.Provisioning.Run.Path.{PathOf, run-PathOf}
use hub_core.Provisioning.Run.Returns.{hub_of, saved_world, run-returns}

abbrev pub driver : Driver
driver = record {
  ssid_fits = true;
  password_fits = true;
  configures = true;
  starts = true;
  scan = some (ascii "garden" ∷ []);
  connects = λ n. true;
  netif_up = true;
  ip_info = true;
}

abbrev pub radio : Radio
radio = record { tries = 0; slept = 0; running = false; connected = false }

abbrev half_tick : Tick
half_tick = record {
  writes = ssid_written (ascii "gardn") ∷ [];
  driver = driver;
  boot = first_boot;
  adverts = adverts;
  scan_ends_well = true;
  device_at = λ addr. record device { addr = addr; confirm_succeeds = true };
  advertises = true;
}

-- A C string ends with a zero byte.
abbrev pair_tick : Tick
pair_tick = record half_tick {
  writes =
      ssid_written (ascii "garden" ++ 0 ∷ []) ∷ password_written (ascii "secret" ++ 0 ∷ []) ∷ [];
}

-- A network that is not there, and the right one.
abbrev wrong_tick : Tick
wrong_tick = record half_tick {
  writes = ssid_written (ascii "gardn") ∷ password_written (ascii "secret") ∷ [];
}

abbrev pub ticks : List Tick
ticks = half_tick ∷ wrong_tick ∷ pair_tick ∷ []

run-PathOf_example :
    PathOf
      (run flash auth server true ticks fresh quiet radio).0
      (run flash auth server true ticks fresh quiet radio).1.status
run-PathOf_example = run-PathOf flash auth server true ticks fresh quiet radio

abbrev waited : Outcome × Prov Cells Register
waited = run flash auth server true (half_tick ∷ []) fresh quiet radio

waiting_test : waited.0 ≡ waiting
unfolding run
waiting_test = refl

joined_test : (connect_for_provisioning driver (ascii "garden") waited.1.radio).0 ≡ ok tt
unfolding run connect_for_provisioning text_eq
joined_test = refl

claimed_test :
    (claim_hub_after_time_sync flash auth first_boot
      (saved_world flash auth server (ascii "garden") (ascii "secret") waited.1.world)).0
    ≡ ok (ascii "id", ascii "jwt")
unfolding run claim_hub_after_time_sync text_eq write_hub_jwt
claimed_test = refl

trimmed_test : text_written (ascii "garden" ++ 0 ∷ []) ≡ some (ascii "garden")
unfolding text_written
trimmed_test = refl

trimmed_password_test : text_written (ascii "secret" ++ 0 ∷ []) ≡ some (ascii "secret")
unfolding text_written
trimmed_password_test = refl

run-returns_example :
    (probes : List SetupProbe) × ((run flash auth server true
        (half_tick ∷ pair_tick ∷ [])
        fresh
        quiet
        radio).0
      ≡ provisioned (hub_of (ascii "garden") (ascii "secret") (ascii "id", ascii "jwt") probes))
run-returns_example =
    run-returns flash auth server (half_tick ∷ []) [] pair_tick (ascii "garden" ++ 0 ∷ [])
      (ascii "secret" ++ 0 ∷ []) (ascii "garden") (ascii "secret") (ascii "id", ascii "jwt") fresh
      quiet radio waiting_test refl trimmed_test trimmed_password_test joined_test claimed_test

values_test :
    map (λ (v : ℕ × Bool). v.0) (run flash auth server true ticks fresh quiet radio).1.status
    ≡ 6 ∷ 5 ∷ 3 ∷ 1 ∷ 0 ∷ 2 ∷ 0 ∷ []
unfolding run text_eq write_hub_jwt scan_probe_candidates
values_test = refl
