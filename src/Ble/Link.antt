-- ===== src/Ble/Link.antt =====
-- What src/ble.rs uses of the BLE stack: a probe as the answers that it gives, and the link to it.
use hub_core.Base.{ℕ, ◌+◌, ◌&&◌, not, Bool, true, List, Option}
use hub_core.Base.Int.{ℤ}
use hub_core.Base.Text.{Text}
use hub_core.Motor.Command.{BuildError}
use hub_core.Probe.Readings.{Service, get_unix_now_ms}

-- Outside: how each call on the probe goes, the hub's clock, and the texts of errors. `motor_result` is
-- the characteristic of the report, where it is there, and what reading it gives.
pub record Device : Type 0 where
  pub addr : Text
  pub connects : Bool
  pub has_service : Bool
  pub service : Service
  pub reading_time : Option ℕ
  pub has_motor_command : Bool
  pub write_succeeds : Bool
  pub motor_result : Option (Option (List ℕ))
  pub has_setup_confirm : Bool
  pub confirm_succeeds : Bool
  pub disconnects : Bool
  pub clock : ℕ → Option ℕ
  pub error_text : Text
  pub build_error_text : BuildError → Text

-- Whether the hub is connected, the frames that the motor characteristic took, the newest first, the
-- values that the confirmation characteristic took, and how often the clock was read.
pub record Link : Type 0 where
  pub connected : Bool
  pub written : List (List ℕ)
  pub confirmed : List Text
  pub readings : ℕ

abbrev pub connect : Link → Link
connect s = record s { connected = true }

-- `let _ = client.disconnect();`: where the call fails, the connection stays.
abbrev pub disconnect : Device → Link → Link
disconnect d s = record s { connected = s.connected && not d.disconnects }

abbrev pub read_clock : Device → Link → ℤ × Link
read_clock d s = (get_unix_now_ms (d.clock s.readings), record s { readings = s.readings + 1 })
