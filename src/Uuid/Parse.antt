-- ===== src/Uuid/Parse.antt =====
-- `parse_uuid_compact_bytes` against a description that knows no indices: take the value of each
-- character that is not a hyphen, and pack the values two by two.
use mathlib.Core.List.{append-nil}
use hub_core.Base.{
  ℕ, zero, suc, ◌+◌, ◌*◌, ◌/◌, ◌%◌, ◌<◌, ◌≡◌, refl, ap, ◌∙◌, sym, ◌⊎◌, ◌↔◌, replicate, true, false,
  List, [], ◌∷◌, ◌++◌, Option, none, some, arith, ◌==◌, if◌then◌else◌, Bool-cases, Option-cases,
  leb, length, set, length-set, take-all, take, inl, inr,
}
use hub_core.Base.Text.{Text}
use hub_core.Base.Result.{ok}
use hub_core.Uuid.{hex_value, parse_loop, parse_uuid_compact_bytes}

abbrev cons_value : Option ℕ → Option (List ℕ) → Option (List ℕ)
cons_value (some v) (some vs) = some (v ∷ vs)
cons_value (some v) none = none
cons_value none vs = none

-- The values of the digits, hyphens left out; `none` if any other character stands there.
unfoldable pub nibbles : Text → Option (List ℕ)
nibbles [] = some []
nibbles (c ∷ cs) = if c == b'-' then nibbles cs else cons_value (hex_value c) (nibbles cs)

-- The first of a pair is the high half of the byte.
unfoldable pub pack : List ℕ → List ℕ
pack [] = []
pack (h ∷ []) = []
pack (h ∷ l ∷ vs) = (h * 16 + l) ∷ pack vs

pub hex_value-lt : (c v : ℕ) → hex_value c ≡ some v → v < 16
unfolding hex_value
hex_value-lt c v h = ground arith

take-set {ℓ} :
    {A : Type ℓ} (i : ℕ) (xs : List A) (v : A)
    → i < length xs
    → take (suc i) (set xs i v) ≡ take i xs ++ v ∷ []
take-set i [] v h = elim h [ ]
take-set zero (x ∷ xs) v h = refl
take-set (suc i) (x ∷ xs) v h = ground (arith, take-set i xs v)

-- A write at `i` and what is packed behind it.
take-set-append :
    (i : ℕ) (out : List ℕ) (v : ℕ) (vs : List ℕ)
    → i < length out
    → take (suc i) (set out i v) ++ vs ≡ take i out ++ (v ∷ vs)
take-set-append i [] v vs h = elim h [ ]
take-set-append zero (x ∷ xs) v vs h = refl
take-set-append (suc i) (x ∷ xs) v vs h = ground (arith, take-set-append i xs v vs)

byte_of_nibbles : (h l : ℕ) → h < 16 → h * 16 % 256 + l ≡ h * 16 + l
byte_of_nibbles h l p = omega arith

even_end :
    (i h : ℕ) (out vs : List ℕ)
    → nibbles [] ≡ some vs
    → 2 * i + length vs ≡ 32
    → length out ≡ 16
    → parse_loop [] (2 * i) h out ≡ ok (take i out ++ pack vs)
unfolding parse_loop nibbles pack
even_end i h out vs e n l =
    let empty : vs ≡ [] = ground arith in
    let full : i ≡ 16 = omega (arith, ap length empty) in
    rw (empty, full) (ap ok (sym (append-nil _ ∙ take-all 16 out l)))

written :
    (i h v : ℕ) (out vs : List ℕ)
    → h < 16
    → i < length out
    → take (suc i) (set out i (h * 16 % 256 + v)) ++ pack vs ≡ take i out ++ pack (h ∷ v ∷ vs)
unfolding pack
written i h v out vs p l =
    rw (byte_of_nibbles h v p) (take-set-append i out (h * 16 + v) (pack vs) l)

-- The loop passes over a hyphen.
loop-skip :
    (c : ℕ) (s : Text) (k h : ℕ) (out : List ℕ)
    → (c == b'-') ≡ true
    → parse_loop (c ∷ s) k h out ≡ parse_loop s k h out
unfolding parse_loop
loop-skip c s k h out e = ground arith

-- At an even index it remembers the high half, and at an odd one it writes a byte.
loop-keep :
    (c : ℕ) (s : Text) (i h v : ℕ) (out : List ℕ)
    → (c == b'-') ≡ false
    → hex_value c ≡ some v
    → parse_loop (c ∷ s) (2 * i) h out ≡ parse_loop s (2 * i + 1) v out
unfolding parse_loop
loop-keep c s i h v out e d = ground arith

loop-write :
    (c : ℕ) (s : Text) (i h v : ℕ) (out : List ℕ)
    → (c == b'-') ≡ false
    → hex_value c ≡ some v
    → i < length out
    → parse_loop (c ∷ s) (2 * i + 1) h out
      ≡ parse_loop s (2 * suc i) h (set out i (h * 16 % 256 + v))
unfolding parse_loop
loop-write c s i h v out e d l =
    let half : (2 * i + 1) / 2 ≡ i = omega arith in
    let up : 2 * i + 1 + 1 ≡ 2 * suc i = omega arith in
    let odd : ((2 * i + 1) % 2 == 0) ≡ false = ground arith in
    let fits : leb (length out) i ≡ false = ground arith in
    rw (e, parse_loop) (rw (d, parse_loop) (rw (odd, half, up, fits)))

-- What the first character of a text of digits and hyphens is.
pub nibbles-cons :
    (c : ℕ) (s : Text) (vs : List ℕ)
    → nibbles (c ∷ s) ≡ some vs
    → (((c == b'-') ≡ true) × (nibbles s ≡ some vs))
      ⊎ ((v : ℕ) × (ws : List ℕ) × ((c == b'-') ≡ false)
          × (hex_value c ≡ some v)
          × (nibbles s ≡ some ws)
          × (vs ≡ v ∷ ws))
unfolding nibbles
nibbles-cons c s vs e = elim (Bool-cases (c == b'-')) [
  | inl d ↦ inl (d, ground arith)
  | inr d ↦ elim (Option-cases (hex_value c)) [
    | inl n ↦ absurd (ground arith)
    | inr (v, n) ↦ elim (Option-cases (nibbles s)) [
      | inl m ↦ absurd (ground arith)
      | inr (ws, m) ↦ inr (v, ws, d, n, m, ground arith)
    ]
  ]
]

-- The loop at an even index has written the bytes below it, and at an odd one holds the high half.
mutual
  unfolding nibbles

  even_complete :
      (s : Text) (i h : ℕ) (out vs : List ℕ)
      → nibbles s ≡ some vs
      → 2 * i + length vs ≡ 32
      → length out ≡ 16
      → parse_loop s (2 * i) h out ≡ ok (take i out ++ pack vs)
  even_complete [] i h out vs e n l = even_end i h out vs e n l
  even_complete (c ∷ s) i h out vs e n l = elim (nibbles-cons c s vs e) [
    | inl (d, r) ↦ loop-skip c s (2 * i) h out d ∙ even_complete s i h out vs r n l
    | inr (v, ws, d, x, r, p) ↦ rw p (
        loop-keep c s i h v out d x
        ∙ odd_complete s i v out ws r (omega (arith, ap length p)) l (hex_value-lt c v x))
  ]

  odd_complete :
      (s : Text) (i h : ℕ) (out vs : List ℕ)
      → nibbles s ≡ some vs
      → 2 * i + 1 + length vs ≡ 32
      → length out ≡ 16
      → h < 16
      → parse_loop s (2 * i + 1) h out ≡ ok (take i out ++ pack (h ∷ vs))
  odd_complete [] i h out vs e n l p = absurd (ground arith)
  odd_complete (c ∷ s) i h out vs e n l p = elim (nibbles-cons c s vs e) [
    | inl (d, r) ↦ loop-skip c s (2 * i + 1) h out d ∙ odd_complete s i h out vs r n l p
    | inr (v, ws, d, x, r, q) ↦ rw q (
        loop-write c s i h v out d x (omega (arith, ap length q))
        ∙ even_complete s (suc i) h (set out i (h * 16 % 256 + v)) ws r (omega (arith, ap length q))
            (length-set out i (h * 16 % 256 + v) ∙ l)
        ∙ ap ok (written i h v out ws p (omega (arith, ap length q))))
  ]

-- The values of the digits, whatever the loop started from.
parse_loop_digits :
    (s : Text) (k h : ℕ) (out r : List ℕ)
    → parse_loop s k h out ≡ ok r
    → (vs : List ℕ) × (nibbles s ≡ some vs) × (k + length vs ≡ 32)
unfolding parse_loop nibbles
parse_loop_digits [] k h out r e = ([], refl, ground arith)
parse_loop_digits (c ∷ s) k h out r e = elim (Bool-cases (c == b'-')) [
  | inl d ↦ let (vs, n, l) = parse_loop_digits s k h out r (ground arith) in (vs, ground arith, l)
  | inr d ↦ elim (Option-cases (hex_value c)) [
    | inl x ↦ absurd (ground arith)
    | inr (v, x) ↦ elim (Bool-cases (k % 2 == 0)) [
      | inl even ↦
          let (vs, n, l) = parse_loop_digits s (k + 1) v out r (ground arith) in
          (v ∷ vs, ground arith, omega arith)
      | inr odd ↦
          let (vs, n, l) =
            parse_loop_digits s (k + 1) h (set out (k / 2) (h * 16 % 256 + v)) r (ground arith) in
          (v ∷ vs, ground arith, omega arith)
    ]
  ]
]

pub parse_uuid_compact_bytes_iff :
    (s : Text) (r : List ℕ)
    → (parse_uuid_compact_bytes s ≡ ok r)
      ↔ ((vs : List ℕ) × (nibbles s ≡ some vs) × (length vs ≡ 32) × (r ≡ pack vs))
unfolding parse_uuid_compact_bytes
parse_uuid_compact_bytes_iff s r = (
  λ e.
      let (vs, n, l) = parse_loop_digits s 0 0 (replicate 16 0) r e in
      let c = even_complete s 0 0 (replicate 16 0) vs n (omega arith) refl in
      (vs, n, omega arith, ground arith),
  λ h. even_complete s 0 0 (replicate 16 0) h.0 h.1 (omega arith) refl ∙ ap ok (sym h.3),
)
