-- ===== src/Probe/Scan/Best.antt =====
-- Which candidates a scan returns: one for each address that was heard, with the best of its adverts.
use hub_core.Base.{
  ◌==◌, ℕ, ◌+◌, ◌≤◌, ◌≡◌, ◌≢◌, refl, ◌∙◌, inl, inr, Bool, true, not, ◌&&◌, List, [], ◌∷◌, Option,
  none, some, if◌then◌else◌, arith,
}
use hub_core.Base.Text.{Text, text_eq, text_eq_iff}
use hub_core.Base.Result.{Run, ok, err, panic, Result-cases}
use hub_core.Probe.Adverts.{is_setup, ProbeMeta}
use hub_core.Probe.Adverts.Bounds.{parse_probe_meta-ne-panic}
use hub_core.Probe.Scan.{
  meta_of_data, Advert, ProbeCandidate, or_else, meta_of_advert, note, on_advert, scan_loop,
  scan_probe_candidates,
}

meta_of_data-ne-panic :
    (mfg : Option (ℕ × List ℕ)) (name : Option Text) → meta_of_data mfg name ≢ panic
meta_of_data-ne-panic none name e = ground arith
meta_of_data-ne-panic (some (company, payload)) name e =
    parse_probe_meta-ne-panic company payload name e

meta_of_advert-ne-panic : (a : Advert) → meta_of_advert a ≢ panic
unfolding meta_of_advert
meta_of_advert-ne-panic a e = elim (Result-cases (meta_of_data a.manufacture_data a.name)) [
  | inl (m, h) ↦ ground arith
  | inr (inl (x, h)) ↦ elim x [ ]
  | inr (inr h) ↦ meta_of_data-ne-panic a.manufacture_data a.name h
]

-- The meta data of an advert, where it is a probe's.
abbrev pub value_of : Run (Option ProbeMeta) → Option ProbeMeta
value_of (ok m) = m
value_of (err x) = none
value_of panic = none

abbrev pub cons_if : Bool → Option ProbeMeta → List ProbeMeta → List ProbeMeta
cons_if true (some m) ms = m ∷ ms
cons_if b m ms = ms

-- What was heard from the address, in order.
abbrev pub heard : Text → List Advert → List ProbeMeta
heard addr [] = []
heard addr (a ∷ rest) =
    cons_if (text_eq addr a.addr) (value_of (meta_of_advert a)) (heard addr rest)

abbrev pub first_setup : List ProbeMeta → Option ProbeMeta
first_setup [] = none
first_setup (m ∷ ms) = if is_setup m.mode then some m else first_setup ms

abbrev pub first : List ProbeMeta → Option ProbeMeta
first [] = none
first (m ∷ ms) = some m

-- The first in setup mode, or else the first.
abbrev pub best : List ProbeMeta → Option ProbeMeta
best ms = or_else (first_setup ms) (first ms)

abbrev pub lookup : Text → List ProbeCandidate → Option ProbeMeta
lookup addr [] = none
lookup addr (c ∷ cs) = if text_eq addr c.addr then some c.meta else lookup addr cs

abbrev pub count_addr : Text → List ProbeCandidate → ℕ
count_addr addr [] = 0
count_addr addr (c ∷ cs) = (if text_eq addr c.addr then 1 else 0) + count_addr addr cs

-- What one more meta data does to a lookup.
abbrev merge : Option ProbeMeta → ProbeMeta → ProbeMeta
merge none m = m
merge (some old) m = if is_setup m.mode && not (is_setup old.mode) then m else old

abbrev merge_all : Option ProbeMeta → List ProbeMeta → Option ProbeMeta
merge_all o [] = o
merge_all o (m ∷ ms) = merge_all (some (merge o m)) ms

merge_all_known :
    (old : ProbeMeta) (ms : List ProbeMeta)
    → merge_all (some old) ms
      ≡ (if is_setup old.mode then some old else or_else (first_setup ms) (some old))
merge_all_known old [] = ground arith
merge_all_known old (m ∷ ms) = ground (arith, merge_all_known (merge (some old) m) ms)

merge_all-best : (ms : List ProbeMeta) → merge_all none ms ≡ best ms
merge_all-best [] = refl
merge_all-best (m ∷ ms) = ground (arith, merge_all_known m ms)

lookup-note :
    (addr a : Text) (m : ProbeMeta) (seen : List ProbeCandidate)
    → lookup addr (note a m seen)
      ≡ (if text_eq addr a then some (merge (lookup addr seen) m) else lookup addr seen)
unfolding note
lookup-note addr a m [] = refl
lookup-note addr a m (c ∷ cs) = ground (
  arith,
  lookup-note addr a m cs,
  text_eq_iff c.addr a,
  text_eq_iff addr c.addr,
  text_eq_iff addr a,
)

count-note :
    (addr a : Text) (m : ProbeMeta) (seen : List ProbeCandidate)
    → count_addr addr (note a m seen)
      ≡ (if text_eq addr a && count_addr addr seen == 0 then 1 else count_addr addr seen)
unfolding note
count-note addr a m [] = ground arith
count-note addr a m (c ∷ cs) = ground (
  arith,
  count-note addr a m cs,
  text_eq_iff c.addr a,
  text_eq_iff addr c.addr,
  text_eq_iff addr a,
)

-- The loop goes through, and each address is looked up in what it has seen.
pub scan_loop_lem :
    (adverts : List Advert) (seen : List ProbeCandidate)
    → (r : List ProbeCandidate) × (scan_loop adverts seen ≡ ok r)
      × ((addr : Text) → lookup addr r ≡ merge_all (lookup addr seen) (heard addr adverts))
      × (((addr : Text) → count_addr addr seen ≤ 1) → (addr : Text) → count_addr addr r ≤ 1)
unfolding scan_loop on_advert
scan_loop_lem [] seen = (seen, refl, λ addr. refl, λ h. h)
scan_loop_lem (a ∷ rest) seen = elim (Result-cases (meta_of_advert a)) [
  | inl (none, h) ↦
      let (r, e, l, c) = scan_loop_lem rest seen in
      (r, ground arith, λ addr. rw h (ground (arith, l addr)), c)
  | inl (some m, h) ↦
      let (r, e, l, c) = scan_loop_lem rest (note a.addr m seen) in
      (
        r,
        ground arith,
        λ addr. rw h (ground (arith, l addr, lookup-note addr a.addr m seen)),
        λ one. c (λ addr. ground (arith, count-note addr a.addr m seen, one addr)),
      )
  | inr (inl (x, h)) ↦ elim x [ ]
  | inr (inr h) ↦ absurd (meta_of_advert-ne-panic a h)
]

-- A scan that ends well returns, for each address, the meta data of the first advert from there that
-- is in setup mode, or else of the first that is a probe's, and no candidate where none was; no address has two candidates.
pub scan_probe_candidates-best :
    (adverts : List Advert)
    → (r : List ProbeCandidate) × (scan_probe_candidates adverts true ≡ ok r)
      × ((addr : Text) → lookup addr r ≡ best (heard addr adverts))
      × ((addr : Text) → count_addr addr r ≤ 1)
unfolding scan_probe_candidates
scan_probe_candidates-best adverts =
    let (r, e, l, c) = scan_loop_lem adverts [] in
    (r, ground arith, λ addr. l addr ∙ merge_all-best (heard addr adverts), c (λ addr. omega arith))
