-- ===== src/Net/Wifi.antt =====
-- src/wifi.rs, `connect_with_attempts`, `connect` and `connect_for_provisioning`.
use hub_core.Base.{
  ℕ, zero, suc, ◌+◌, Bool, true, false, not, ◌&&◌, ◌||◌, List, [], ◌∷◌, Option, none, some, ltb,
  if◌then◌else◌,
}
use hub_core.Base.Text.{Text, text_eq}
use hub_core.Base.Result.{Result, ok, err, panic}

-- Outside: how each call of the Wi-Fi driver goes, that of `connect` by the number of the attempt.
pub record Driver : Type 0 where
  pub ssid_fits : Bool
  pub password_fits : Bool
  pub configures : Bool
  pub starts : Bool
  pub scan : Option (List Text)
  pub connects : ℕ → Bool
  pub netif_up : Bool
  pub ip_info : Bool

pub data WifiError : Type 0 where
  bad_credentials not_configured not_started scan_failed ssid_not_found no_netif : WifiError
  connect_failed : ℕ → WifiError

-- How often `connect` was called, how often the hub slept, and whether the driver runs
-- and is connected.
pub record Radio : Type 0 where
  pub tries : ℕ
  pub slept : ℕ
  pub running : Bool
  pub connected : Bool

unfoldable pub contains : Text → List Text → Bool
unfolding text_eq
contains ssid [] = false
contains ssid (found ∷ rest) = text_eq found ssid || contains ssid rest

abbrev stopped : Radio → Radio
stopped s = record s { running = false; connected = false }

-- Behind the loop: `last_err.unwrap()`.
abbrev pub last_error : Option ℕ → Result WifiError (Unit {0})
last_error none = panic
last_error (some attempt) = err (connect_failed attempt)

-- Attempts from `attempt` on, `left` of them; the error of an attempt is known by its number.
unfoldable pub connect_loop :
    Driver → ℕ → ℕ → ℕ → Option ℕ → Radio → Result WifiError (Unit {0}) × Radio
connect_loop d max_attempts zero attempt last_err s = (last_error last_err, stopped s)
connect_loop d max_attempts (suc left) attempt last_err s =
    let tried : Radio = record s { tries = s.tries + 1 } in
    let dropped : Radio = record tried { connected = false } in
    let again =
      connect_loop d max_attempts left (attempt + 1) (some attempt)
        (if ltb attempt max_attempts then record dropped { slept = s.slept + 1 } else dropped) in
    if d.connects attempt
    then (
      if d.netif_up && d.ip_info then ok tt else err no_netif,
      record tried { connected = true },
    )
    else again

-- The scan decides whether the loop is entered.
unfoldable pub after_scan :
    Driver → Text → ℕ → Option (List Text) → Radio → Result WifiError (Unit {0}) × Radio
unfolding contains connect_loop
after_scan d ssid max_attempts none s = (err scan_failed, s)
after_scan d ssid max_attempts (some found) s =
    if not (contains ssid found)
    then (err ssid_not_found, stopped s)
    else connect_loop d max_attempts max_attempts 1 none s

unfoldable pub connect_with_attempts :
    Driver → Text → ℕ → Radio → Result WifiError (Unit {0}) × Radio
unfolding after_scan
connect_with_attempts d ssid max_attempts s =
    if not (d.ssid_fits && d.password_fits)
    then (err bad_credentials, s)
    else if not d.configures
    then (err not_configured, s)
    else if not d.starts
    then (err not_started, s)
    else after_scan d ssid max_attempts d.scan (record s { running = true })

unfoldable pub connect : Driver → Text → Radio → Result WifiError (Unit {0}) × Radio
unfolding connect_with_attempts
connect d ssid s = connect_with_attempts d ssid 5 s

unfoldable pub connect_for_provisioning :
    Driver → Text → Radio → Result WifiError (Unit {0}) × Radio
unfolding connect_with_attempts
connect_for_provisioning d ssid s = connect_with_attempts d ssid 1 s
