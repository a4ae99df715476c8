-- ===== src/Base/Text.antt =====
-- Rust's `String` and `&[u8]`: a text is the list of its UTF-8 bytes. Equality of texts, and the
-- bytes of an ASCII literal.
use Prim.Native.Char.{code}
use Prim.Native.String.{String}
use hub_core.Base.{
  ℕ, zero, suc, ◌+◌, ◌/◌, ◌%◌, if◌then◌else◌, ◌==◌, ℕ, ◌<◌, ◌≡◌, refl, ◌↔◌, Bool, true, false, ◌&&◌,
  List, [], ◌∷◌, arith, ◌==◌,
}

abbrev pub Text : Type 0
Text = List ℕ

-- A byte is a number below 256.
abbrev pub IsByte : ℕ → Type 0
IsByte b = b < 256

abbrev pub ascii : String → Text
ascii String.[] = []
ascii (String.◌∷◌ c s) = code c ∷ ascii s

unfoldable pub text_eq : Text → Text → Bool
text_eq [] [] = true
text_eq [] (y ∷ ys) = false
text_eq (x ∷ xs) [] = false
text_eq (x ∷ xs) (y ∷ ys) = x == y && text_eq xs ys

pub text_eq_iff : (xs ys : Text) → (text_eq xs ys ≡ true) ↔ (xs ≡ ys)
unfolding text_eq
text_eq_iff [] [] = ground arith
text_eq_iff [] (y ∷ ys) = ground arith
text_eq_iff (x ∷ xs) [] = ground arith
text_eq_iff (x ∷ xs) (y ∷ ys) = ground (arith, text_eq_iff xs ys)

pub text_eq_refl : (xs : Text) → text_eq xs xs ≡ true
text_eq_refl xs = (text_eq_iff xs xs).1 refl

-- `a.starts_with(p)`.
unfoldable pub starts_with : Text → Text → Bool
starts_with xs [] = true
starts_with [] (p ∷ ps) = false
starts_with (x ∷ xs) (p ∷ ps) = x == p && starts_with xs ps

abbrev digit_text : ℕ → Text → Text
digit_text n rest = (b'0' + n % 10) ∷ rest

-- The decimal digits of `n` in front of `rest`; the fuel is the number of digits that may be written.
pub decimal_from : ℕ → ℕ → Text → Text
decimal_from zero n rest = rest
decimal_from (suc fuel) n rest =
    let more = decimal_from fuel (n / 10) (digit_text n rest) in
    if n / 10 == 0 then digit_text n rest else more

-- `{}` of a machine integer, which has 20 digits at most.
unfoldable pub decimal : ℕ → Text
unfolding decimal_from
decimal n = decimal_from 20 n []
