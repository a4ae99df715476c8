-- ===== src/Build/Uuid.antt =====
-- The texts that a build generates: src/build.rs, `generate_uuid_v4` and `hex_string`.
use hub_core.Base.{
  inl, inr, Bool-cases, Bool-cases, ◌≡◌, ◌∙◌, ap, refl, ℕ, zero, suc, ◌+◌, ◌/◌, ◌%◌, ◌||◌, List, [],
  ◌∷◌, All, some, ◌==◌, arith, length, get_elem?,
}
use hub_core.Base.Text.{IsByte}
use hub_core.Base.Result.{ok}
use hub_core.Uuid.{hex_digit, expand_from, expand_command_id, parse_uuid_compact_bytes}
use hub_core.Uuid.RoundTrip.{parse_uuid_compact_bytes-expand}
use hub_core.Build.{change_at, mark_version, uuid_from, generate_uuid_v4, hex_string}
use hub_core.Build.Lines.{IsPlain}

hex_digit-IsPlain : (n : ℕ) → IsPlain (hex_digit n)
unfolding hex_digit
hex_digit-IsPlain n = ground arith

pub hex_string-IsPlain : (bs : List ℕ) → All IsPlain (hex_string bs)
unfolding hex_string
hex_string-IsPlain [] = tt
hex_string-IsPlain (b ∷ bs) =
    (hex_digit-IsPlain (b / 16), (hex_digit-IsPlain (b % 16), hex_string-IsPlain bs))

uuid_from-IsPlain : (i : ℕ) (bs : List ℕ) → All IsPlain (uuid_from i bs)
unfolding uuid_from
uuid_from-IsPlain i [] = tt
uuid_from-IsPlain i (b ∷ bs) =
    let high = hex_digit-IsPlain (b / 16) in
    let low = hex_digit-IsPlain (b % 16) in
    let rest = uuid_from-IsPlain (i + 1) bs in
    elim (Bool-cases (i == 4 || i == 6 || i == 8 || i == 10)) [
      | inl dash ↦ rw dash ((refl, refl), (high, (low, rest)))
      | inr no_dash ↦ rw no_dash (high, (low, rest))
    ]

pub generate_uuid_v4-IsPlain : (bs : List ℕ) → All IsPlain (generate_uuid_v4 bs)
unfolding generate_uuid_v4
generate_uuid_v4-IsPlain bs = uuid_from-IsPlain 0 (mark_version bs)

uuid_from-expand : (i : ℕ) (bs : List ℕ) → expand_from i bs ≡ uuid_from i bs
unfolding uuid_from expand_from
uuid_from-expand i [] = refl
uuid_from-expand i (b ∷ bs) = rw (uuid_from-expand (i + 1) bs) refl

length-change_at : (i : ℕ) (f : ℕ → ℕ) (bs : List ℕ) → length (change_at i f bs) ≡ length bs
length-change_at i f [] = refl
length-change_at zero f (b ∷ bs) = refl
length-change_at (suc i) f (b ∷ bs) = ap suc (length-change_at i f bs)

change_at-IsByte :
    (i : ℕ) (f : ℕ → ℕ) (bs : List ℕ)
    → ((b : ℕ) → IsByte b → IsByte (f b))
    → All IsByte bs
    → All IsByte (change_at i f bs)
change_at-IsByte i f [] h a = tt
change_at-IsByte zero f (b ∷ bs) h (p, a) = (h b p, a)
change_at-IsByte (suc i) f (b ∷ bs) h (p, a) = (p, change_at-IsByte i f bs h a)

generated : (bs : List ℕ) → length bs ≡ 16 → length (generate_uuid_v4 bs) ≡ 36
unfolding generate_uuid_v4
generated (b0 ∷ b1 ∷ b2 ∷ b3 ∷ b4 ∷ b5 ∷ b6 ∷ b7 ∷ b8 ∷ b9 ∷ b10 ∷ b11 ∷ b12 ∷ b13 ∷ b14 ∷ b15 ∷ [])
      h =
    refl
generated bs h = absurd (omega arith)

-- The version and the variant of RFC 4122.
abbrev pub HasVersion4 : List ℕ → Type 0
HasVersion4 bs =
    (a : ℕ) × (b : ℕ) × (get_elem? bs 6 ≡ some a)
    × (a / 16 ≡ 4)
    × (get_elem? bs 8 ≡ some b)
    × (b / 64 ≡ 2)

mark_version-HasVersion4 : (bs : List ℕ) → length bs ≡ 16 → HasVersion4 (mark_version bs)
mark_version-HasVersion4 (b0 ∷ b1 ∷ b2 ∷ b3 ∷ b4 ∷ b5 ∷ b6 ∷ b7 ∷ b8 ∷ rest) h =
    (b6 % 16 + 64, b8 % 64 + 128, refl, omega arith, refl, omega arith)
mark_version-HasVersion4 bs h = absurd (omega arith)

mark_version-IsByte : (bs : List ℕ) → All IsByte bs → All IsByte (mark_version bs)
mark_version-IsByte bs a =
    change_at-IsByte 8 (λ b. b % 64 + 128) (change_at 6 (λ b. b % 16 + 64) bs) (λ b h. omega arith)
      (change_at-IsByte 6 (λ b. b % 16 + 64) bs (λ b h. omega arith) a)

-- From any 16 random bytes, `generate_uuid_v4` writes a text of 36 characters, of which the parser of the
-- command identifiers reads 16 bytes that carry the version 4 and the variant of RFC 4122.
pub generate_uuid_v4-version :
    (bs : List ℕ)
    → length bs ≡ 16
    → All IsByte bs
    → (length (generate_uuid_v4 bs) ≡ 36)
      × (id : List ℕ) × (parse_uuid_compact_bytes (generate_uuid_v4 bs) ≡ ok id)
      × HasVersion4 id
unfolding generate_uuid_v4 expand_command_id
generate_uuid_v4-version bs l a =
    let marked : List ℕ = mark_version bs in
    let size =
      length-change_at 8 (λ b. b % 64 + 128) (change_at 6 (λ b. b % 16 + 64) bs)
      ∙ length-change_at 6 (λ b. b % 16 + 64) bs
      ∙ l in
    let (s, e, p) = parse_uuid_compact_bytes-expand marked size (mark_version-IsByte bs a) in
    let same : s ≡ uuid_from 0 marked = ground (arith, uuid_from-expand 0 marked) in
    (generated bs l, marked, rw (← same) p, mark_version-HasVersion4 bs l)
