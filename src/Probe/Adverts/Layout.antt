-- ===== src/Probe/Adverts/Layout.antt =====
-- What `parse_probe_meta` reads from a payload of each layout, and which probes are in setup mode.
use hub_core.Base.{
  ap, ◌∙◌, ◌-◌, ℕ, ◌+◌, ◌≡◌, refl, inl, inr, ◌||◌, List, [], ◌∷◌, ◌++◌, Option, none, some, ◌==◌,
  if◌then◌else◌, length, length-append, take-append, arith, Bool-cases,
}
use hub_core.Base.Text.{Text, text_eq, starts_with}
use hub_core.Base.Result.{ok}
use hub_core.Probe.Utf8.{from_utf8, from_utf8_lossy}
use hub_core.Probe.Utf8.Agree.{from_utf8_lossy-valid}
use hub_core.Probe.Adverts.{
  ProbeMode, normal, setup, is_setup, ProbeMeta, company_id, magic_marker, setup_marker,
  legacy_test_marker, setup_probe_name, matching_marker, unwrap_or, default_probe_name_for_mode,
  meta_of_short, meta_of_long, long_meta, meta_behind, parse_probe_meta,
}

matching_marker-setup :
    (payload : List ℕ) (base : ℕ) (mode : ProbeMode)
    → matching_marker payload ≡ some (base, mode)
    → is_setup mode ≡ starts_with payload setup_marker
unfolding matching_marker starts_with
matching_marker-setup payload base mode h = ground arith

meta_of_short-mode :
    (payload : List ℕ) (base : ℕ) (mode : ProbeMode) (name : Option Text) (m : ProbeMeta)
    → meta_of_short payload base mode name ≡ ok (some m)
    → is_setup m.mode ≡ (is_setup mode || text_eq m.name setup_probe_name)
unfolding meta_of_short
meta_of_short-mode payload base mode name m h = ground arith

meta_of_long-mode :
    (payload : List ℕ) (base : ℕ) (mode : ProbeMode) (m : ProbeMeta)
    → meta_of_long payload base mode ≡ ok (some m)
    → is_setup m.mode ≡ (is_setup mode || text_eq m.name setup_probe_name)
unfolding meta_of_long long_meta
meta_of_long-mode payload base mode m h = ground arith

meta_behind-mode :
    (payload : List ℕ) (name : Option Text) (found : Option (ℕ × ProbeMode)) (m : ProbeMeta)
    → meta_behind payload name found ≡ ok (some m)
    → (base : ℕ) × (mode : ProbeMode) × (found ≡ some (base, mode))
      × (is_setup m.mode ≡ (is_setup mode || text_eq m.name setup_probe_name))
unfolding meta_behind
meta_behind-mode payload name none m h = absurd (ground arith)
meta_behind-mode payload name (some (base, mode)) m h = (
  base,
  mode,
  refl,
  elim (Bool-cases (length payload == base + 2)) [
    | inl is_short ↦ meta_of_short-mode payload base mode name m (ground arith)
    | inr is_long ↦ meta_of_long-mode payload base mode m (ground arith)
  ],
)

-- A probe counts as in setup exactly when its payload starts with the setup marker or its name is
-- HH-PROBE-SETUP, whichever of the two layouts the payload has.
pub parse_probe_meta-mode :
    (company : ℕ) (payload : List ℕ) (name : Option Text) (m : ProbeMeta)
    → parse_probe_meta company payload name ≡ ok (some m)
    → is_setup m.mode ≡ (starts_with payload setup_marker || text_eq m.name setup_probe_name)
unfolding parse_probe_meta
parse_probe_meta-mode company payload name m h =
    let (base, mode, found, same) =
      meta_behind-mode payload name (matching_marker payload) m (ground arith) in
    rw (← matching_marker-setup payload base mode found) same

pub data Marker : Type 0 where
  magic_m setup_m legacy_m : Marker

-- The three markers with the mode that each stands for.
abbrev pub marker_text : Marker → Text
marker_text magic_m = magic_marker
marker_text setup_m = setup_marker
marker_text legacy_m = legacy_test_marker

abbrev pub marker_mode : Marker → ProbeMode
marker_mode setup_m = setup
marker_mode _ = normal

matching_marker-marker :
    (k : Marker) (major minor : ℕ) (rest : List ℕ)
    → matching_marker (marker_text k ++ (major ∷ minor ∷ rest))
      ≡ some (length (marker_text k), marker_mode k)
unfolding matching_marker starts_with
matching_marker-marker k major minor rest = ground arith

abbrev pub meta : ℕ → ℕ → Text → ProbeMode → ProbeMeta
meta major minor name mode = record {
  version_major = major;
  version_minor = minor;
  name = name;
  mode = if is_setup mode || text_eq name setup_probe_name then setup else normal;
}

minus_same : (k n : ℕ) → k + n - k ≡ n
minus_same k n = omega arith

meta_of_long-layout :
    (k : Marker) (major minor : ℕ) (name rest : List ℕ)
    → meta_of_long
        (marker_text k ++ (major ∷ minor ∷ length name ∷ (name ++ rest)))
        (length (marker_text k))
        (marker_mode k)
      ≡ ok (some (long_meta (marker_mode k) major minor name))
unfolding meta_of_long
meta_of_long-layout magic_m major minor name rest =
    rw
      (
        length-append name rest,
        minus_same 11 (length name),
        take-append (length name) name rest refl,
      )
      (ground arith)
meta_of_long-layout setup_m major minor name rest =
    rw
      (
        length-append name rest,
        minus_same 11 (length name),
        take-append (length name) name rest refl,
      )
      (ground arith)
meta_of_long-layout legacy_m major minor name rest =
    rw
      (
        length-append name rest,
        minus_same 7 (length name),
        take-append (length name) name rest refl,
      )
      (ground arith)

meta_of_short-layout :
    (k : Marker) (major minor : ℕ) (advertised : Option Text)
    → meta_of_short
        (marker_text k ++ (major ∷ minor ∷ []))
        (length (marker_text k))
        (marker_mode k)
        advertised
      ≡ ok (
          some (
            meta major minor
              (unwrap_or advertised (default_probe_name_for_mode (marker_mode k)))
              (marker_mode k)))
unfolding meta_of_short
meta_of_short-layout k major minor advertised = ground arith

-- A payload of the long layout, that is a marker, two bytes for the version, the length of the name,
-- the name, and anything behind it, gives that version and that name, decoded. A probe is in setup
-- mode if the marker is HH-SETUP or the name HH-PROBE-SETUP.
pub parse_probe_meta-long :
    (k : Marker) (major minor : ℕ) (name rest : List ℕ) (advertised : Option Text)
    → parse_probe_meta company_id
        (marker_text k ++ (major ∷ minor ∷ length name ∷ (name ++ rest)))
        advertised
      ≡ ok (some (meta major minor (from_utf8_lossy name) (marker_mode k)))
unfolding parse_probe_meta meta_behind long_meta
parse_probe_meta-long k major minor name rest advertised =
    rw (matching_marker-marker k major minor (length name ∷ (name ++ rest))) (
      ground (
        arith,
        length-append (marker_text k) (major ∷ minor ∷ length name ∷ (name ++ rest)),
        meta_of_long-layout k major minor name rest,
      ))

-- A payload of the short layout, a marker and the version, gives its version and the name of the
-- advertisement, or the default name of the marker's mode without one.
pub parse_probe_meta-short :
    (k : Marker) (major minor : ℕ) (advertised : Option Text)
    → parse_probe_meta company_id (marker_text k ++ (major ∷ minor ∷ [])) advertised
      ≡ ok (
          some (
            meta major minor
              (unwrap_or advertised (default_probe_name_for_mode (marker_mode k)))
              (marker_mode k)))
unfolding parse_probe_meta meta_behind
parse_probe_meta-short k major minor advertised = rw (matching_marker-marker k major minor []) (
    ground (
      arith,
      length-append (marker_text k) (major ∷ minor ∷ []),
      meta_of_short-layout k major minor advertised,
    ))

-- A name of valid UTF-8 in a payload of the long layout is the name that `parse_probe_meta` returns, byte
-- by byte.
pub parse_probe_meta-long_utf8 :
    (k : Marker) (major minor : ℕ) (name rest : List ℕ) (advertised : Option Text)
    → from_utf8 name ≡ some name
    → parse_probe_meta company_id
        (marker_text k ++ (major ∷ minor ∷ length name ∷ (name ++ rest)))
        advertised
      ≡ ok (some (meta major minor name (marker_mode k)))
parse_probe_meta-long_utf8 k major minor name rest advertised valid =
    parse_probe_meta-long k major minor name rest advertised
    ∙ ap (λ n. ok (some (meta major minor n (marker_mode k)))) (from_utf8_lossy-valid name valid)
