-- ===== src/Provisioning/Tests.antt =====
-- The theorems of the children of Provisioning on concrete writes and probes.
use hub_core.Base.{ℕ, suc, ◌≤◌, ◌<◌, ◌≡◌, refl, ◌⊎◌, List, [], ◌∷◌, some, length, take, replicate}
use hub_core.Base.Text.{ascii, decimal}
use hub_core.Provisioning.ProbeList.{SetupProbe, max_probe_result_bytes, encode_setup_probes}
use hub_core.Provisioning.ProbeList.Prefix.{lines, encode_setup_probes-lines}
use hub_core.Provisioning.Credentials.{
  WifiCredentials, PendingWifiCredentials, default, complete, next_pending_credentials_state,
  on_write_ssid, on_write_password,
}
use hub_core.Provisioning.Credentials.Pairing.{
  Event, ssid_written, password_written, looked, Run, begin, next, after, newest_ssid,
  password_since_ssid, next_pending_credentials_state-paired,
}

abbrev probe : ℕ → SetupProbe
probe n = record {
  probe_uuid = replicate 36 b'a';
  name = replicate n b'b';
  version_major = 1;
  version_minor = 12;
}

abbrev probes : List SetupProbe
probes = probe 14 ∷ probe 100 ∷ probe 100 ∷ []

encode_test : length (encode_setup_probes probes) ≡ 199
unfolding encode_setup_probes decimal
encode_test = refl

encode_setup_probes-lines_example :
    (n : ℕ) × (n ≤ length probes)
    × (encode_setup_probes probes ≡ lines (take n probes))
    × (length (encode_setup_probes probes) ≤ max_probe_result_bytes)
    × ((n ≡ length probes) ⊎ (max_probe_result_bytes < length (lines (take (suc n) probes))))
encode_setup_probes-lines_example = encode_setup_probes-lines probes

-- A name, a password, another name and its password, with a zero byte at the end.
abbrev history : List Event
history =
    password_written (ascii "new")
    ∷ looked
    ∷ ssid_written (ascii "garden\0")
    ∷ password_written (ascii "old")
    ∷ ssid_written (ascii "house")
    ∷ []

abbrev pending : PendingWifiCredentials
pending = after (password_written (ascii "new")) (
    after looked (
      after (ssid_written (ascii "garden\0"))
        (after (password_written (ascii "old")) (after (ssid_written (ascii "house")) default))))

abbrev found : WifiCredentials
found = record { ssid = ascii "garden"; password = ascii "new" }

history-Run : Run history pending
history-Run = next (password_written (ascii "new")) (
    next looked (
      next (ssid_written (ascii "garden\0"))
        (next (password_written (ascii "old")) (next (ssid_written (ascii "house")) begin))))

found_test : (next_pending_credentials_state pending).0 ≡ complete found
unfolding next_pending_credentials_state on_write_ssid on_write_password
found_test = refl

next_pending_credentials_state-paired_example :
    (newest_ssid history ≡ some found.ssid)
    × (password_since_ssid history ≡ some found.password)
    × ((next_pending_credentials_state pending).1 ≡ default)
next_pending_credentials_state-paired_example =
    next_pending_credentials_state-paired history pending found history-Run found_test
