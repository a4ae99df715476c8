-- ===== src/Provisioning/Credentials.antt =====
-- src/wifi_prov.rs: the credentials that the two write handlers collect, and what the loop of `run`
-- finds of them.
pub mod Pairing
use hub_core.Base.{
  ℕ, Bool, true, false, List, [], ◌∷◌, ◌++◌, Option, none, some, ◌==◌, if◌then◌else◌,
}
use hub_core.Base.Text.{Text}
use hub_core.Probe.Utf8.{from_utf8}

-- nvs_store.rs.
pub record WifiCredentials : Type 0 where
  pub ssid : Text
  pub password : Text

pub record PendingWifiCredentials : Type 0 where
  pub ssid : Option Text
  pub password : Option Text

-- `#[derive(Default)]`.
abbrev pub default : PendingWifiCredentials
default = record { ssid = none; password = none }

abbrev pub set_ssid : Text → PendingWifiCredentials → PendingWifiCredentials
set_ssid ssid p = record p { ssid = some ssid; password = none }

abbrev pub set_password : Text → PendingWifiCredentials → PendingWifiCredentials
set_password password p = record p { password = some password }

-- The fields taken out if both are there.
abbrev both : Option Text → Option Text → Option WifiCredentials
both (some ssid) (some password) = some (record { ssid = ssid; password = password })
both ssid none = none
both none (some password) = none

abbrev taken :
    PendingWifiCredentials
    → Option WifiCredentials
    → Option WifiCredentials × PendingWifiCredentials
taken p none = (none, p)
taken p (some credentials) = (some credentials, record p { ssid = none; password = none })

unfoldable pub take_complete :
    PendingWifiCredentials → Option WifiCredentials × PendingWifiCredentials
take_complete p = taken p (both p.ssid p.password)

pub data PendingCredentialsState : Type 0 where
  complete : WifiCredentials → PendingCredentialsState
  waiting_for_password : Text → PendingCredentialsState
  waiting_for_ssid : PendingCredentialsState
  empty : PendingCredentialsState

abbrev what_is_there : Option Text → Option Text → PendingCredentialsState
what_is_there (some ssid) password = waiting_for_password ssid
what_is_there none (some password) = waiting_for_ssid
what_is_there none none = empty

unfoldable pub next_pending_credentials_state :
    PendingWifiCredentials → PendingCredentialsState × PendingWifiCredentials
unfolding take_complete
next_pending_credentials_state p =
    let (credentials, q) = take_complete p in
    elim credentials [ some c ↦ (complete c, q) | none ↦ (what_is_there q.ssid q.password, q) ]

-- `s.trim_end_matches('\0')`.
unfoldable pub trim_end_zeros : Text → Text
trim_end_zeros [] = []
trim_end_zeros (b ∷ bs) = elim (trim_end_zeros bs) [
  | [] ↦ if b == 0 then [] else b ∷ []
  | ◌∷◌ x xs ↦ b ∷ x ∷ xs
]

-- The text of a write, where it is UTF-8.
unfoldable pub text_written : List ℕ → Option Text
unfolding from_utf8 trim_end_zeros
text_written raw = elim (from_utf8 raw) [ none ↦ none | some s ↦ some (trim_end_zeros s) ]

abbrev pub written :
    (Text → PendingWifiCredentials → PendingWifiCredentials)
    → Option Text
    → PendingWifiCredentials
    → PendingWifiCredentials
written set none p = p
written set (some s) p = set s p

-- The `on_write` handlers of the two characteristics.
unfoldable pub on_write_ssid : List ℕ → PendingWifiCredentials → PendingWifiCredentials
unfolding text_written
on_write_ssid raw p = written set_ssid (text_written raw) p

unfoldable pub on_write_password : List ℕ → PendingWifiCredentials → PendingWifiCredentials
unfolding text_written
on_write_password raw p = written set_password (text_written raw) p
