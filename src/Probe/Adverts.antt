-- ===== src/Probe/Adverts.antt =====
-- src/ble.rs, the advertisement of a probe: `parse_probe_meta`, `parse_probe_meta_from_name` and
-- `matching_marker`, with the markers of src/config.rs.
pub mod Bounds
pub mod Layout
use hub_core.Base.{
  ℕ, ◌+◌, Bool, true, false, not, ◌&&◌, ◌||◌, List, [], ◌∷◌, Option, none, some, leb, ltb, ◌==◌,
  if◌then◌else◌, length,
}
use hub_core.Base.Text.{Text, ascii, text_eq, starts_with}
use hub_core.Base.Result.{Run, Result, ok, panic, ◌>>=◌, slice, index}
use hub_core.Probe.Utf8.{from_utf8_lossy}

abbrev pub company_id : ℕ
company_id = 4660

abbrev pub magic_marker : Text
magic_marker = ascii "HH-PROBE"

abbrev pub setup_marker : Text
setup_marker = ascii "HH-SETUP"

abbrev pub setup_probe_name : Text
setup_probe_name = ascii "HH-PROBE-SETUP"

abbrev pub legacy_test_marker : Text
legacy_test_marker = ascii "TEST"

pub data ProbeMode : Type 0 where
  normal setup : ProbeMode

-- `matches!(mode, ProbeMode::Setup)`.
abbrev pub is_setup : ProbeMode → Bool
is_setup normal = false
is_setup setup = true

pub record ProbeMeta : Type 0 where
  pub version_major : ℕ
  pub version_minor : ℕ
  pub name : Text
  pub mode : ProbeMode

-- `o.unwrap_or_else(|| d)`.
abbrev pub unwrap_or : {A : Type 0} → Option A → A → A
unwrap_or none d = d
unwrap_or (some a) d = a

abbrev carries : List ℕ → Text → Bool
carries payload marker = starts_with payload marker && leb (length marker + 2) (length payload)

unfoldable pub matching_marker : List ℕ → Option (ℕ × ProbeMode)
unfolding starts_with
matching_marker payload =
    if carries payload magic_marker
    then some (length magic_marker, normal)
    else if carries payload setup_marker
    then some (length setup_marker, setup)
    else if carries payload legacy_test_marker
    then some (length legacy_test_marker, normal)
    else none

unfoldable pub default_probe_name_for_mode : ProbeMode → Text
default_probe_name_for_mode normal = ascii "HH-PROBE-A"
default_probe_name_for_mode setup = setup_probe_name

-- A payload that ends behind the version: the name comes from the advertisement itself.
unfoldable pub meta_of_short : List ℕ → ℕ → ProbeMode → Option Text → Run (Option ProbeMeta)
unfolding default_probe_name_for_mode text_eq
meta_of_short payload base marker_mode advertised_name =
    let name = unwrap_or advertised_name (default_probe_name_for_mode marker_mode) in
    do
      version_major ← index payload base
      version_minor ← index payload (base + 1)
      ok (
          some (record {
            version_major = version_major;
            version_minor = version_minor;
            name = name;
            mode = if text_eq name setup_probe_name then setup else marker_mode;
          }))

-- What is returned once the bytes of the name are cut out.
unfoldable pub long_meta : ProbeMode → ℕ → ℕ → List ℕ → ProbeMeta
unfolding from_utf8_lossy text_eq
long_meta marker_mode version_major version_minor raw =
    let name = from_utf8_lossy raw in
    record {
      version_major = version_major;
      version_minor = version_minor;
      name = name;
      mode = if is_setup marker_mode || text_eq name setup_probe_name then setup else normal;
    }

-- A payload that carries its name, behind a byte for the length.
unfoldable pub meta_of_long : List ℕ → ℕ → ProbeMode → Run (Option ProbeMeta)
unfolding long_meta
meta_of_long payload base marker_mode = do
  version_major ← index payload base
  version_minor ← index payload (base + 1)
  name_len ← index payload (base + 2)
  if ltb (length payload) (base + 3 + name_len) then ok none else do
    raw ← slice payload (base + 3) (base + 3 + name_len)
    ok (some (long_meta marker_mode version_major version_minor raw))

unfoldable pub meta_behind : List ℕ → Option Text → Option (ℕ × ProbeMode) → Run (Option ProbeMeta)
unfolding meta_of_short meta_of_long
meta_behind payload advertised_name none = ok none
meta_behind payload advertised_name (some (base, marker_mode)) =
    if length payload == base + 2
    then meta_of_short payload base marker_mode advertised_name
    else meta_of_long payload base marker_mode

unfoldable pub parse_probe_meta : ℕ → List ℕ → Option Text → Run (Option ProbeMeta)
unfolding matching_marker meta_behind
parse_probe_meta company payload advertised_name =
    if not (company == company_id)
    then ok none
    else meta_behind payload advertised_name (matching_marker payload)

abbrev meta_named : ProbeMode → Text → ProbeMeta
meta_named mode name = record { version_major = 0; version_minor = 0; name = name; mode = mode }

unfoldable pub parse_probe_meta_from_name : Option Text → Option ProbeMeta
unfolding text_eq
parse_probe_meta_from_name none = none
parse_probe_meta_from_name (some name) =
    if text_eq name setup_probe_name
    then some (meta_named setup name)
    else if text_eq name (ascii "HH-PROBE-A")
    then some (meta_named normal name)
    else none
