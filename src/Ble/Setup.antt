-- ===== src/Ble/Setup.antt =====
-- src/ble.rs, a probe in setup mode: `acknowledge_setup_probe`, `read_setup_probe_identity` and
-- `discover_setup_probes`.
use hub_core.Base.{ℕ, false, not, List, [], ◌∷◌, Option, none, some, if◌then◌else◌}
use hub_core.Base.Text.{Text, ascii}
use hub_core.Base.Result.{Result, ok, err, panic}
use hub_core.Probe.Adverts.{unwrap_or, is_setup}
use hub_core.Probe.Readings.{probe_uuid_char, parse_probe_uuid_ascii}
use hub_core.Probe.Scan.{ProbeCandidate, ScanError}
use hub_core.Provisioning.ProbeList.{SetupProbe}
use hub_core.Ble.Link.{Device, Link, connect, disconnect}

-- config.rs, PROBE_SETUP_CONFIRM_MAGIC.
abbrev pub confirm_magic : Text
confirm_magic = ascii "HHSETUP1"

pub data SetupError : Type 0 where
  connect_failed service_missing uuid_read_failed confirm_missing confirm_write_failed : SetupError

-- The write of the confirmation and the end of the connection, which a failed write does not reach.
unfoldable pub confirm_and_close : {A : Type 0} → Device → A → Link → Result SetupError A × Link
confirm_and_close d a s =
    if not d.has_setup_confirm
    then (err confirm_missing, disconnect d s)
    else if d.confirm_succeeds
    then (ok a, disconnect d (record s { confirmed = confirm_magic ∷ s.confirmed }))
    else (err confirm_write_failed, s)

unfoldable pub acknowledge_setup_probe : Device → Link → Result SetupError (Unit {0}) × Link
unfolding confirm_and_close
acknowledge_setup_probe d s =
    if not d.connects
    then (err connect_failed, s)
    else if not d.has_service
    then (err service_missing, disconnect d (connect s))
    else confirm_and_close d tt (connect s)

abbrev identity : ProbeCandidate → Text → SetupProbe
identity c uuid = record {
  probe_uuid = uuid;
  name = c.meta.name;
  version_major = c.meta.version_major;
  version_minor = c.meta.version_minor;
}

-- From what the characteristic of the identifier gives.
unfoldable pub confirm_identity :
    Device → ProbeCandidate → Option (Option (List ℕ)) → Link → Result SetupError SetupProbe × Link
unfolding confirm_and_close parse_probe_uuid_ascii
confirm_identity d c none s = confirm_and_close d (identity c d.addr) s
confirm_identity d c (some none) s = (err uuid_read_failed, disconnect d s)
confirm_identity d c (some (some raw)) s =
    confirm_and_close d (identity c (unwrap_or (parse_probe_uuid_ascii raw) d.addr)) s

unfoldable pub read_setup_probe_identity :
    Device → ProbeCandidate → Link → Result SetupError SetupProbe × Link
unfolding confirm_identity
read_setup_probe_identity d c s =
    if not d.connects
    then (err connect_failed, s)
    else if not d.has_service
    then (err service_missing, disconnect d (connect s))
    else confirm_identity d c (d.service probe_uuid_char) (connect s)

abbrev pub push_if_ok : Result SetupError SetupProbe → List SetupProbe → List SetupProbe
push_if_ok (ok p) ps = p ∷ ps
push_if_ok (err e) ps = ps
push_if_ok panic ps = ps

-- Each candidate is a device of its own, with a new client.
abbrev pub new_client : Link
new_client = record { connected = false; written = []; confirmed = []; readings = 0 }

unfoldable pub pick_up : (Text → Device) → List ProbeCandidate → List SetupProbe
unfolding read_setup_probe_identity
pick_up device_at [] = []
pick_up device_at (c ∷ cs) =
    let rest = pick_up device_at cs in
    if is_setup c.meta.mode
    then push_if_ok (read_setup_probe_identity (device_at c.addr) c new_client).0 rest
    else rest

unfoldable pub discover_setup_probes :
    (Text → Device) → Result ScanError (List ProbeCandidate) → Result ScanError (List SetupProbe)
unfolding pick_up
discover_setup_probes device_at (ok candidates) = ok (pick_up device_at candidates)
discover_setup_probes device_at (err e) = err e
discover_setup_probes device_at panic = panic
