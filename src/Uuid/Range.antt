-- ===== src/Uuid/Range.antt =====
-- What `parse_uuid_compact_bytes` returns is 16 bytes.
use hub_core.Base.{
  ◌+◌, set, replicate, inl, inr, Option-cases, ◌≢◌, ◌/◌, ◌%◌, zero, suc, ℕ, ◌*◌, ◌<◌, ◌≡◌, List, [],
  ◌∷◌, some, arith, length, All, inl, inr,
}
use hub_core.Base.Text.{Text, IsByte}
use hub_core.Base.Result.{panic, ok}
use hub_core.Uuid.{parse_loop, hex_value, parse_uuid_compact_bytes, command_id_len}
use hub_core.Uuid.Parse.{nibbles, nibbles-cons, pack, hex_value-lt, parse_uuid_compact_bytes_iff}

length-pack : (vs : List ℕ) (n : ℕ) → length vs ≡ 2 * n → length (pack vs) ≡ n
unfolding pack
length-pack [] n e = omega arith
length-pack (h ∷ []) n e = absurd (omega arith)
length-pack (h ∷ l ∷ vs) zero e = absurd (omega arith)
length-pack (h ∷ l ∷ vs) (suc n) e = omega (arith, length-pack vs n (omega arith))

nibbles-lt : (s : Text) (vs : List ℕ) → nibbles s ≡ some vs → All (λ v. v < 16) vs
unfolding nibbles
nibbles-lt [] [] e = tt
nibbles-lt [] (v ∷ vs) e = absurd (ground arith)
nibbles-lt (c ∷ s) vs e = elim (nibbles-cons c s vs e) [
  | inl (d, r) ↦ nibbles-lt s vs r
  | inr (v, ws, d, x, r, p) ↦ rw p (hex_value-lt c v x, nibbles-lt s ws r)
]

pack-IsByte : (vs : List ℕ) → All (λ v. v < 16) vs → All IsByte (pack vs)
unfolding pack
pack-IsByte [] h = tt
pack-IsByte (v ∷ []) h = tt
pack-IsByte (v ∷ w ∷ vs) (p, (q, h)) = (omega arith, pack-IsByte vs h)

-- What `parse_uuid_compact_bytes` returns for a text that it accepts is 16 numbers below 256.
pub parse_uuid_compact_bytes-IsByte :
    (s : Text) (r : List ℕ)
    → parse_uuid_compact_bytes s ≡ ok r
    → (length r ≡ command_id_len) × All IsByte r
parse_uuid_compact_bytes-IsByte s r e =
    let (vs, n, l, p) = (parse_uuid_compact_bytes_iff s r).0 e in
    rw p (length-pack vs 16 l, pack-IsByte vs (nibbles-lt s vs n))

-- The write is behind the test of `out_index`, so the parser panics on no text.
parse_loop-ne-panic : (s : Text) (k h : ℕ) (out : List ℕ) → parse_loop s k h out ≢ panic
unfolding parse_loop
parse_loop-ne-panic [] k h out e = ground arith
parse_loop-ne-panic (c ∷ s) k h out e = elim (Option-cases (hex_value c)) [
  | inl n ↦ ground (arith, parse_loop-ne-panic s k h out)
  | inr (v, n) ↦ ground (
    arith,
    parse_loop-ne-panic s k h out,
    parse_loop-ne-panic s (k + 1) v out,
    parse_loop-ne-panic s (k + 1) h (set out (k / 2) (h * 16 % 256 + v)),
  )
]

pub parse_uuid_compact_bytes-ne-panic : (s : Text) → parse_uuid_compact_bytes s ≢ panic
unfolding parse_uuid_compact_bytes
parse_uuid_compact_bytes-ne-panic s = parse_loop-ne-panic s 0 0 (replicate command_id_len 0)
