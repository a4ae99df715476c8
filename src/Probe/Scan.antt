-- ===== src/Probe/Scan.antt =====
-- src/ble.rs, `scan_probe_candidates`: the callback of the scan over the list that it fills.
pub mod Best
use hub_core.Base.{
  ℕ, Bool, true, false, not, ◌&&◌, List, [], ◌∷◌, Option, none, some, if◌then◌else◌,
}
use hub_core.Base.Text.{Text, text_eq}
use hub_core.Base.Result.{Run, Result, ok, err, panic, ◌>>=◌}
use hub_core.Probe.Adverts.{
  ProbeMode, is_setup, ProbeMeta, parse_probe_meta, parse_probe_meta_from_name,
}

-- What the BLE stack hands to the callback, of `BLEAdvertisedDevice` and of its data: the address, the
-- name, and the manufacturer's company and payload.
pub record Advert : Type 0 where
  pub addr : Text
  pub name : Option Text
  pub manufacture_data : Option (ℕ × List ℕ)

-- The device is known by its address.
pub record ProbeCandidate : Type 0 where
  pub addr : Text
  pub meta : ProbeMeta

-- `o.or_else(|| p)`.
abbrev pub or_else : {A : Type 0} → Option A → Option A → Option A
or_else none p = p
or_else (some a) p = some a

abbrev pub meta_of_data : Option (ℕ × List ℕ) → Option Text → Run (Option ProbeMeta)
meta_of_data none name = ok none
meta_of_data (some (company_identifier, payload)) name =
    parse_probe_meta company_identifier payload name

unfoldable pub meta_of_advert : Advert → Run (Option ProbeMeta)
unfolding parse_probe_meta parse_probe_meta_from_name
meta_of_advert a = do
  meta ← meta_of_data a.manufacture_data a.name
  ok (or_else meta (parse_probe_meta_from_name a.name))

abbrev pub upgrade : ProbeMeta → ProbeCandidate → ProbeCandidate
upgrade meta existing =
    if is_setup meta.mode && not (is_setup existing.meta.mode)
    then record existing { meta = meta }
    else existing

-- The first candidate with the address is upgraded; without one, a new one is pushed.
unfoldable pub note : Text → ProbeMeta → List ProbeCandidate → List ProbeCandidate
unfolding text_eq
note addr meta [] = record { addr = addr; meta = meta } ∷ []
note addr meta (existing ∷ rest) =
    let more = note addr meta rest in
    if text_eq existing.addr addr then upgrade meta existing ∷ rest else existing ∷ more

abbrev note_if : Text → Option ProbeMeta → List ProbeCandidate → List ProbeCandidate
note_if addr none seen = seen
note_if addr (some meta) seen = note addr meta seen

-- The callback.
unfoldable pub on_advert : Advert → List ProbeCandidate → Run (List ProbeCandidate)
unfolding meta_of_advert note
on_advert a seen = do meta ← meta_of_advert a; ok (note_if a.addr meta seen)

unfoldable pub scan_loop : List Advert → List ProbeCandidate → Run (List ProbeCandidate)
unfolding on_advert
scan_loop [] seen = ok seen
scan_loop (a ∷ rest) seen = do seen' ← on_advert a seen; scan_loop rest seen'

pub data ScanError : Type 0 where
  scan_failed : ScanError

-- What was seen is returned if the scan itself ends well.
abbrev finished : Bool → Run (List ProbeCandidate) → Result ScanError (List ProbeCandidate)
finished ended_well panic = panic
finished ended_well (err x) = elim x [ ]
finished true (ok seen) = ok seen
finished false (ok seen) = err scan_failed

-- The scan hears these adverts, in this order, and then ends well or not.
unfoldable pub scan_probe_candidates : List Advert → Bool → Result ScanError (List ProbeCandidate)
unfolding scan_loop
scan_probe_candidates adverts ended_well = finished ended_well (scan_loop adverts [])
