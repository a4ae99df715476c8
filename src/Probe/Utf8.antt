-- ===== src/Probe/Utf8.antt =====
-- What src/ble.rs uses of Rust's UTF-8: `str::from_utf8` and `String::from_utf8_lossy`.
pub mod Agree
use hub_core.Base.{
  ◌-◌, ℕ, zero, suc, Bool, true, false, ◌&&◌, List, [], ◌∷◌, ◌++◌, Option, none, some, leb, ◌==◌,
  if◌then◌else◌, length, drop, take,
}
use hub_core.Base.Text.{Text}

abbrev between : ℕ → ℕ → ℕ → Bool
between low high b = leb low b && leb b high

abbrev is_continuation : ℕ → Bool
is_continuation b = between 128 191 b

-- How many bytes a character with this first byte has; 0 where none has it.
abbrev width : ℕ → ℕ
width a =
    if leb a 127
    then 1
    else if between 194 223 a
    then 2
    else if between 224 239 a
    then 3
    else if between 240 244 a
    then 4
    else 0

-- Whether `b` may stand second, after `a`: no overlong form, no surrogate, nothing past U+10FFFF.
abbrev second_fits : ℕ → ℕ → Bool
second_fits a b =
    if a == 224
    then between 160 191 b
    else if a == 237
    then between 128 159 b
    else if a == 240
    then between 144 191 b
    else if a == 244
    then between 128 143 b
    else is_continuation b

-- The bytes at the front that fit, of a character that needs `needed` more.
abbrev tail_fits : ℕ → List ℕ → ℕ
tail_fits zero bs = 0
tail_fits (suc needed) [] = 0
tail_fits (suc needed) (b ∷ bs) = if is_continuation b then suc (tail_fits needed bs) else 0

abbrev rest_fits : ℕ → ℕ → List ℕ → ℕ
rest_fits a zero bs = 0
rest_fits a (suc needed) [] = 0
rest_fits a (suc needed) (b ∷ bs) = if second_fits a b then suc (tail_fits needed bs) else 0

-- The length of the first character, or of the bad bytes that one replacement stands for.
pub data Head : Type 0 where
  valid : ℕ → Head
  invalid : ℕ → Head

unfoldable pub head_of : ℕ → List ℕ → Head
head_of a bs =
    let fit = rest_fits a (width a - 1) bs in
    if width a == 0
    then invalid 1
    else if suc fit == width a
    then valid (suc fit)
    else invalid (suc fit)

-- Fuel for a byte each.
pub is_utf8_from : ℕ → List ℕ → Bool
is_utf8_from fuel [] = true
is_utf8_from zero (a ∷ bs) = false
is_utf8_from (suc fuel) (a ∷ bs) = elim (head_of a bs) [
  | valid n ↦ is_utf8_from fuel (drop n (a ∷ bs))
  | invalid n ↦ false
]

unfoldable pub is_utf8 : List ℕ → Bool
unfolding is_utf8_from head_of
is_utf8 bs = is_utf8_from (length bs) bs

-- `str::from_utf8(raw).ok()`.
unfoldable pub from_utf8 : List ℕ → Option Text
unfolding is_utf8
from_utf8 bs = if is_utf8 bs then some bs else none

-- U+FFFD.
abbrev pub replacement : Text
replacement = 239 ∷ 191 ∷ 189 ∷ []

pub lossy_from : ℕ → List ℕ → Text
lossy_from fuel [] = []
lossy_from zero (a ∷ bs) = []
lossy_from (suc fuel) (a ∷ bs) = elim (head_of a bs) [
  | valid n ↦ take n (a ∷ bs) ++ lossy_from fuel (drop n (a ∷ bs))
  | invalid n ↦ replacement ++ lossy_from fuel (drop n (a ∷ bs))
]

unfoldable pub from_utf8_lossy : List ℕ → Text
unfolding lossy_from head_of
from_utf8_lossy bs = lossy_from (length bs) bs
