-- ===== src/Storage/WifiStore.antt =====
-- src/nvs_store.rs: `load` and `save` of the Wi-Fi credentials.
use hub_core.Base.{Bool, true, false, not, ◌∷◌, Option, none, some, if◌then◌else◌}
use hub_core.Base.Text.{Text, ascii}
use hub_core.Provisioning.Credentials.{WifiCredentials}
use hub_core.Storage.Flash.{Flash}

abbrev pub wifi_namespace : Text
wifi_namespace = ascii "harvesthub"

abbrev pub key_ssid : Text
key_ssid = ascii "wifi_ssid"

abbrev pub key_pass : Text
key_pass = ascii "wifi_pass"

-- The two reads of `load`: an error counts as absent.
abbrev pub loaded : Option (Option Text) → Option (Option Text) → Option WifiCredentials
loaded (some (some (b ∷ bs))) (some (some pass)) = some (record { ssid = b ∷ bs; password = pass })
loaded ssid pass = none

module _ {S : Type 0} (f : Flash S) where
  unfoldable pub load : S → Option WifiCredentials
  load s =
      if not (f.opens wifi_namespace true s)
      then none
      else loaded (f.get_str wifi_namespace key_ssid s) (f.get_str wifi_namespace key_pass s)

  -- The password is written if the name was.
  abbrev pub then_password : Text → Bool × S → Bool × S
  then_password password (true, s) = f.set_str wifi_namespace key_pass password s
  then_password password (false, s) = (false, s)

  unfoldable pub save : WifiCredentials → S → Bool × S
  save c s =
      if not (f.opens wifi_namespace true s)
      then (false, s)
      else then_password c.password (f.set_str wifi_namespace key_ssid c.ssid s)
