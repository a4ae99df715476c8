-- ===== src/Probe/Adverts/Bounds.antt =====
-- No advertisement makes the parser read outside its payload, and which probes count as in setup.
use hub_core.Base.{
  ℕ, zero, suc, ◌+◌, ◌≤◌, ◌<◌, ◌≡◌, ◌≢◌, refl, List, [], ◌∷◌, Option, none, some, length, get_elem?,
  arith,
}
use hub_core.Base.Text.{Text}
use hub_core.Base.Result.{panic}
use hub_core.Probe.Adverts.{
  ProbeMode, matching_marker, meta_of_short, meta_of_long, meta_behind, parse_probe_meta,
}

get_elem?-lt {ℓ} :
    {A : Type ℓ} (xs : List A) (i : ℕ) → i < length xs → (a : A) × (get_elem? xs i ≡ some a)
get_elem?-lt [] i h = absurd (omega arith)
get_elem?-lt (x ∷ xs) zero h = (x, refl)
get_elem?-lt (x ∷ xs) (suc i) h = get_elem?-lt xs i (omega arith)

-- A marker that is found leaves two bytes behind it.
matching_marker-room :
    (payload : List ℕ) (base : ℕ) (mode : ProbeMode)
    → matching_marker payload ≡ some (base, mode)
    → base + 2 ≤ length payload
unfolding matching_marker
matching_marker-room payload base mode h = ground arith

meta_of_short-ne-panic :
    (payload : List ℕ) (base : ℕ) (mode : ProbeMode) (name : Option Text)
    → base + 2 ≤ length payload
    → meta_of_short payload base mode name ≢ panic
unfolding meta_of_short
meta_of_short-ne-panic payload base mode name h e =
    let (a, p) = get_elem?-lt payload base (omega arith) in
    let (b, q) = get_elem?-lt payload (base + 1) (omega arith) in ground arith

meta_of_long-ne-panic :
    (payload : List ℕ) (base : ℕ) (mode : ProbeMode)
    → base + 3 ≤ length payload
    → meta_of_long payload base mode ≢ panic
unfolding meta_of_long
meta_of_long-ne-panic payload base mode h e =
    let (a, p) = get_elem?-lt payload base (omega arith) in
    let (b, q) = get_elem?-lt payload (base + 1) (omega arith) in
    let (n, r) = get_elem?-lt payload (base + 2) (omega arith) in ground arith

meta_behind-ne-panic :
    (payload : List ℕ) (name : Option Text) (found : Option (ℕ × ProbeMode))
    → ((base : ℕ) (mode : ProbeMode) → found ≡ some (base, mode) → base + 2 ≤ length payload)
    → meta_behind payload name found ≢ panic
unfolding meta_behind
meta_behind-ne-panic payload name none room e = ground arith
meta_behind-ne-panic payload name (some (base, mode)) room e =
    let fits : base + 2 ≤ length payload = room base mode refl in
    ground (
      arith,
      meta_of_short-ne-panic payload base mode name fits,
      meta_of_long-ne-panic payload base mode,
    )

-- Whatever a device advertises, `parse_probe_meta` reads no byte outside the payload, the byte for the
-- length of the name and the name itself included.
pub parse_probe_meta-ne-panic :
    (company : ℕ) (payload : List ℕ) (name : Option Text)
    → parse_probe_meta company payload name ≢ panic
unfolding parse_probe_meta
parse_probe_meta-ne-panic company payload name =
    let inner =
      meta_behind-ne-panic payload name (matching_marker payload) (matching_marker-room payload) in
    λ e. ground (arith, inner)
