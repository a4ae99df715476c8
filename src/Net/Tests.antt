-- ===== src/Net/Tests.antt =====
-- The theorems of Net.Outcome where the second attempt goes through.
use hub_core.Base.{ℕ, Bool, true, false, [], ◌∷◌, some, ◌==◌}
use hub_core.Base.Text.{ascii}
use hub_core.Net.Wifi.{Driver, Radio}

abbrev second : ℕ → Bool
second n = n == 2

abbrev driver : Driver
driver = record {
  ssid_fits = true;
  password_fits = true;
  configures = true;
  starts = true;
  scan = some (ascii "house" ∷ ascii "garden" ∷ []);
  connects = second;
  netif_up = true;
  ip_info = true;
}

abbrev off : Radio
off = record { tries = 0; slept = 0; running = false; connected = false }
