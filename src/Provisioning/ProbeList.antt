-- ===== src/Provisioning/ProbeList.antt =====
-- src/wifi_prov.rs, `encode_setup_probes`: the probes as lines of text, cut off at 220 bytes.
pub mod Prefix
use hub_core.Base.{ℕ, ◌+◌, Bool, true, false, List, [], ◌∷◌, ◌++◌, ltb, if◌then◌else◌, length}
use hub_core.Base.Text.{Text, decimal}

abbrev pub max_probe_result_bytes : ℕ
max_probe_result_bytes = 220

-- src/ble.rs.
pub record SetupProbe : Type 0 where
  pub probe_uuid : Text
  pub name : Text
  pub version_major : ℕ
  pub version_minor : ℕ

-- `format!("{}|{}|{}.{}", …)`.
unfoldable pub line_of : SetupProbe → Text
line_of p =
    p.probe_uuid
    ++ (b'|' ∷ p.name ++ (b'|' ∷ decimal p.version_major ++ (b'.' ∷ decimal p.version_minor)))

abbrev pub separator_len : Text → ℕ
separator_len [] = 0
separator_len (x ∷ xs) = 1

-- The separator is pushed unless nothing was, then the line.
abbrev pub push_line : Text → Text → Text
push_line [] line = line
push_line (x ∷ xs) line = x ∷ xs ++ (b'\n' ∷ line)

unfoldable pub encode_loop : Text → List SetupProbe → Text
unfolding line_of
encode_loop encoded [] = encoded
encode_loop encoded (probe ∷ rest) =
    let line = line_of probe in
    let more = encode_loop (push_line encoded line) rest in
    if ltb max_probe_result_bytes (length encoded + separator_len encoded + length line)
    then encoded
    else more

unfoldable pub encode_setup_probes : List SetupProbe → Text
unfolding encode_loop
encode_setup_probes probes = encode_loop [] probes
