-- ===== src/Base/Result.antt =====
-- `anyhow::Result`: the error is one of the model's values for the `bail!`, `context` or `?` met.
-- `panic` is Rust's abort of the task, by an index out of range or a slice of the wrong length.
use hub_core.Base.{
  refl, ◌⊎◌, inl, inr, ◌≡◌, ◌+◌, ◌≤◌, arith, take-append, drop-append, length-append, ℕ, ◌-◌, Bool,
  true, false, ◌&&◌, List, ◌++◌, Option, none, some, leb, ◌==◌, length, get_elem?, take, drop, set,
  if◌then◌else◌,
}

pub data Result {ℓ} (E A : Type ℓ) : Type ℓ where
  ok : A → Result E A
  err : E → Result E A
  panic : Result E A

infixl 5 ◌>>=◌ ◌>>◌
abbrev pub ◌>>=◌ : {E A B : Type 0} → Result E A → (A → Result E B) → Result E B
ok a >>= f = f a
err e >>= f = err e
panic >>= f = panic

abbrev pub ◌>>◌ : {E B : Type 0} → Result E (Unit {0}) → Result E B → Result E B
m >> k = m >>= λ _. k

-- What a function that returns no `Result` gives: a value, or a panic.
abbrev pub Run : Type 0 → Type 0
Run A = Result ⊥ A

-- `if test { bail!(e) }`.
abbrev pub bail_if : {E : Type 0} → Bool → E → Result E (Unit {0})
bail_if true e = err e
bail_if false e = ok tt

abbrev pub map_err : {E F A : Type 0} → (E → F) → Result E A → Result F A
map_err f (ok a) = ok a
map_err f (err e) = err (f e)
map_err f panic = panic

abbrev or_panic : {E A : Type 0} → Option A → Result E A
or_panic none = panic
or_panic (some a) = ok a

abbrev in_range : {A : Type 0} → List A → ℕ → ℕ → Bool
in_range xs start end = leb start end && leb end (length xs)

module _ {E A : Type 0} where
  -- `xs[i]`.
  abbrev pub index : List A → ℕ → Result E A
  index xs i = or_panic (get_elem? xs i)

  -- `&xs[start..end]`.
  abbrev pub slice : List A → ℕ → ℕ → Result E (List A)
  slice xs start end =
      if in_range xs start end then ok (take (end - start) (drop start xs)) else panic

  -- `xs[i] = v`.
  abbrev pub store : List A → ℕ → A → Result E (List A)
  store xs i v = if leb (length xs) i then panic else ok (set xs i v)

  -- `xs[start..end].copy_from_slice(src)`.
  abbrev pub copy_from_slice : List A → ℕ → ℕ → List A → Result E (List A)
  copy_from_slice xs start end src =
      if in_range xs start end && length src == end - start
      then ok (take start xs ++ (src ++ drop end xs))
      else panic

-- Bytes copied behind a prefix overwrite what stands there.
pub copy_from_slice-append :
    {E A : Type 0} (xs ys src : List A) (start end : ℕ)
    → length xs ≡ start
    → start + length src ≡ end
    → length src ≤ length ys
    → copy_from_slice {E = E} (xs ++ ys) start end src ≡ ok (xs ++ (src ++ drop (length src) ys))
copy_from_slice-append xs ys src start end s e l =
    let inside : in_range (xs ++ ys) start end ≡ true = ground (arith, length-append xs ys) in
    let same : (length src == end - start) ≡ true = ground arith in
    rw (inside, same, ← e, take-append start xs ys s, drop-append start (length src) xs ys s)

-- To split on a computed result and keep the equation.
pub Result-cases :
    {E A : Type 0} (r : Result E A)
    → ((a : A) × (r ≡ ok a)) ⊎ (((e : E) × (r ≡ err e)) ⊎ (r ≡ panic))
Result-cases (ok a) = inl (a, refl)
Result-cases (err e) = inr (inl (e, refl))
Result-cases panic = inr (inr refl)
