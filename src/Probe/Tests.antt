-- ===== src/Probe/Tests.antt =====
-- The theorems of the children of Probe on concrete adverts and values.
use hub_core.Base.{ℕ, ◌≤◌, ◌≡◌, refl, true, List, [], ◌∷◌, ◌++◌, none, some, length}
use hub_core.Base.Int.{pos, negsuc}
use hub_core.Base.Text.{Text, ascii}
use hub_core.Base.Result.{ok}
use hub_core.Probe.Utf8.{from_utf8, from_utf8_lossy}
use hub_core.Probe.Adverts.{setup, ProbeMeta, company_id, parse_probe_meta}
use hub_core.Probe.Adverts.Layout.{
  parse_probe_meta-long_utf8, setup_m, marker_text, marker_mode, meta,
}
use hub_core.Probe.Scan.{Advert, ProbeCandidate, scan_probe_candidates}
use hub_core.Probe.Scan.Best.{lookup, best, heard, count_addr, scan_probe_candidates-best}
use hub_core.Probe.Readings.{ProbeReading, read_probe_from_service}
use hub_core.Probe.Readings.RoundTrip.{serving}

-- A UTF-8 name with a byte that fits nothing.
lossy_test : from_utf8_lossy (195 ∷ 169 ∷ 255 ∷ 65 ∷ []) ≡ 195 ∷ 169 ∷ 239 ∷ 191 ∷ 189 ∷ 65 ∷ []
unfolding from_utf8_lossy
lossy_test = refl

abbrev name : Text
name = ascii "BED-1"

abbrev long_payload : List ℕ
long_payload = marker_text setup_m ++ (1 ∷ 2 ∷ length name ∷ (name ++ (9 ∷ [])))

abbrev long_meta_test_value : ProbeMeta
long_meta_test_value = record { version_major = 1; version_minor = 2; name = name; mode = setup }

long_test : parse_probe_meta company_id long_payload none ≡ ok (some long_meta_test_value)
unfolding parse_probe_meta
long_test = refl

name_test : from_utf8 name ≡ some name
unfolding from_utf8
name_test = refl

parse_probe_meta-long_utf8_example :
    parse_probe_meta company_id long_payload none ≡ ok (some (meta 1 2 name (marker_mode setup_m)))
parse_probe_meta-long_utf8_example =
    parse_probe_meta-long_utf8 setup_m 1 2 name (9 ∷ []) none name_test

-- A probe heard in normal mode and then by its setup name, and a phone.
abbrev pub adverts : List Advert
adverts =
    record { addr = 1 ∷ []; name = some (ascii "HH-PROBE-A"); manufacture_data = none }
    ∷ record { addr = 2 ∷ []; name = some (ascii "phone"); manufacture_data = none }
    ∷ record { addr = 1 ∷ []; name = none; manufacture_data = some (company_id, long_payload) }
    ∷ []

scan_probe_candidates-best_example :
    (r : List ProbeCandidate) × (scan_probe_candidates adverts true ≡ ok r)
    × ((addr : Text) → lookup addr r ≡ best (heard addr adverts))
    × ((addr : Text) → count_addr addr r ≤ 1)
scan_probe_candidates-best_example = scan_probe_candidates-best adverts

scan_test :
    scan_probe_candidates adverts true
    ≡ ok (record { addr = 1 ∷ []; meta = long_meta_test_value } ∷ [])
unfolding scan_probe_candidates
scan_test = refl

abbrev values : ProbeReading
values = record {
  probe_uuid = ascii "AA:BB";
  air_temperature_c = negsuc 249;
  air_pressure_pa = 101325;
  air_humidity_pct = 5500;
  soil_temperature_c = pos 1850;
  soil_humidity_pct = 10000;
  timestamp = pos 1700000000000;
}

values_test :
    read_probe_from_service (serving values []) (ascii "AA:BB") (some 1700000000000)
    ≡ ok (some values)
unfolding read_probe_from_service
values_test = refl
