-- ===== src/Probe/Utf8/Agree.antt =====
-- `from_utf8_lossy` against `from_utf8`, and that a step of fuel for each byte is enough.
use hub_core.Base.{
  ℕ, zero, suc, ◌≤◌, ◌≡◌, ◌≢◌, Bool, false, refl, sym, ap, ◌∙◌, true, List, [], ◌∷◌, ◌++◌, some,
  length, drop, take, length-drop, arith,
}
use hub_core.Base.Text.{Text}
use hub_core.Probe.Utf8.{
  Head, valid, invalid, head_of, is_utf8_from, is_utf8, from_utf8, replacement, lossy_from,
  from_utf8_lossy,
}

abbrev size : Head → ℕ
size (valid n) = n
size (invalid n) = n

-- What is taken off at a time is never nothing.
head_of-size : (a : ℕ) (bs : List ℕ) → 1 ≤ size (head_of a bs)
unfolding head_of
head_of-size a bs = ground arith

take-drop : (n : ℕ) (xs : List ℕ) → take n xs ++ drop n xs ≡ xs
take-drop zero xs = refl
take-drop (suc n) [] = refl
take-drop (suc n) (x ∷ xs) = ap (◌∷◌ x) (take-drop n xs)

-- One step, from what the head is.
abbrev lossy_step : Head → ℕ → List ℕ → Text
lossy_step (valid n) fuel bs = take n bs ++ lossy_from fuel (drop n bs)
lossy_step (invalid n) fuel bs = replacement ++ lossy_from fuel (drop n bs)

lossy_from-step :
    (fuel a : ℕ) (bs : List ℕ)
    → lossy_from (suc fuel) (a ∷ bs) ≡ lossy_step (head_of a bs) fuel (a ∷ bs)
unfolding lossy_from
lossy_from-step fuel a bs =
    elim (head_of a bs)
      as (λ h.
        elim h as (λ x. Text) [
          | valid n ↦ take n (a ∷ bs) ++ lossy_from fuel (drop n (a ∷ bs))
          | invalid n ↦ replacement ++ lossy_from fuel (drop n (a ∷ bs))
        ]
        ≡ lossy_step h fuel (a ∷ bs)) [ valid n ↦ refl | invalid n ↦ refl ]

lossy_step-fuel :
    (f g : ℕ) (h : Head) (bs : List ℕ)
    → 1 ≤ size h
    → ((xs : List ℕ) → length xs ≤ f → length xs ≤ g → lossy_from f xs ≡ lossy_from g xs)
    → length bs ≤ suc f
    → length bs ≤ suc g
    → lossy_step h f bs ≡ lossy_step h g bs
lossy_step-fuel f g (valid n) bs one same p q =
    ap (◌++◌ (take n bs))
      (same (drop n bs) (omega (arith, length-drop n bs)) (omega (arith, length-drop n bs)))
lossy_step-fuel f g (invalid n) bs one same p q =
    ap (◌++◌ replacement)
      (same (drop n bs) (omega (arith, length-drop n bs)) (omega (arith, length-drop n bs)))

lossy_from-nil : (f : ℕ) → lossy_from f [] ≡ []
unfolding lossy_from
lossy_from-nil zero = refl
lossy_from-nil (suc f) = refl

lossy_from-fuel :
    (f g : ℕ) (bs : List ℕ) → length bs ≤ f → length bs ≤ g → lossy_from f bs ≡ lossy_from g bs
lossy_from-fuel f g [] p q = lossy_from-nil f ∙ sym (lossy_from-nil g)
lossy_from-fuel zero g (a ∷ bs) p q = absurd (omega arith)
lossy_from-fuel (suc f) zero (a ∷ bs) p q = absurd (omega arith)
lossy_from-fuel (suc f) (suc g) (a ∷ bs) p q =
    lossy_from-step f a bs
    ∙ lossy_step-fuel f g (head_of a bs) (a ∷ bs) (head_of-size a bs) (lossy_from-fuel f g) p q
    ∙ sym (lossy_from-step g a bs)

abbrev utf8_step : Head → ℕ → List ℕ → Bool
utf8_step (valid n) fuel bs = is_utf8_from fuel (drop n bs)
utf8_step (invalid n) fuel bs = false

is_utf8_from-step :
    (fuel a : ℕ) (bs : List ℕ)
    → is_utf8_from (suc fuel) (a ∷ bs) ≡ utf8_step (head_of a bs) fuel (a ∷ bs)
unfolding is_utf8_from
is_utf8_from-step fuel a bs =
    elim (head_of a bs)
      as (λ h.
        elim h as (λ x. Bool) [ valid n ↦ is_utf8_from fuel (drop n (a ∷ bs)) | invalid n ↦ false ]
        ≡ utf8_step h fuel (a ∷ bs)) [ valid n ↦ refl | invalid n ↦ refl ]

step-agrees :
    (f : ℕ) (h : Head) (bs : List ℕ)
    → ((xs : List ℕ) → is_utf8_from f xs ≡ true → lossy_from f xs ≡ xs)
    → utf8_step h f bs ≡ true
    → lossy_step h f bs ≡ bs
step-agrees f (valid n) bs same u = ap (◌++◌ (take n bs)) (same (drop n bs) u) ∙ take-drop n bs
step-agrees f (invalid n) bs same u = absurd (ground arith)

no_fuel : (a : ℕ) (bs : List ℕ) → is_utf8_from zero (a ∷ bs) ≢ true
unfolding is_utf8_from
no_fuel a bs u = ground arith

lossy_from-agrees : (f : ℕ) (bs : List ℕ) → is_utf8_from f bs ≡ true → lossy_from f bs ≡ bs
lossy_from-agrees f [] u = lossy_from-nil f
lossy_from-agrees zero (a ∷ bs) u = absurd (no_fuel a bs u)
lossy_from-agrees (suc f) (a ∷ bs) u =
    lossy_from-step f a bs
    ∙ step-agrees f (head_of a bs) (a ∷ bs) (lossy_from-agrees f)
        (sym (is_utf8_from-step f a bs) ∙ u)

-- More fuel than one step for each byte decodes nothing differently.
pub from_utf8_lossy-fuel :
    (bs : List ℕ) (fuel : ℕ) → length bs ≤ fuel → lossy_from fuel bs ≡ from_utf8_lossy bs
unfolding from_utf8_lossy
from_utf8_lossy-fuel bs fuel h = lossy_from-fuel fuel (length bs) bs h (omega arith)

-- Bytes that `from_utf8` accepts are decoded unchanged by `from_utf8_lossy`.
pub from_utf8_lossy-valid : (bs : List ℕ) → from_utf8 bs ≡ some bs → from_utf8_lossy bs ≡ bs
unfolding from_utf8_lossy from_utf8 is_utf8
from_utf8_lossy-valid bs u = lossy_from-agrees (length bs) bs (ground arith)
