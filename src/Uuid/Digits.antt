-- ===== src/Uuid/Digits.antt =====
-- One hexadecimal digit, written and read back; and the two copies of the expansion agree.
use hub_core.Base.{ℕ, ◌+◌, ◌/◌, ◌%◌, ◌<◌, ◌≡◌, refl, List, [], ◌∷◌, some, arith, ◌==◌, false}
use hub_core.Uuid.{
  hex_digit, nibble_to_hex, expand_from, expand_command_id, label_from, command_id_label, hex_value,
}

pub hex_value-hex_digit : (n : ℕ) → n < 16 → hex_value (hex_digit n) ≡ some n
unfolding hex_value hex_digit
hex_value-hex_digit n h = ground arith

pub hex_digit-ne-dash : (n : ℕ) → (hex_digit n == b'-') ≡ false
unfolding hex_digit
hex_digit-ne-dash n = ground arith

nibble_to_hex-eq : (n : ℕ) → nibble_to_hex n ≡ hex_digit n
unfolding nibble_to_hex hex_digit
nibble_to_hex-eq n = refl

label_from-eq : (i : ℕ) (bs : List ℕ) → label_from i bs ≡ expand_from i bs
unfolding label_from expand_from
label_from-eq i [] = refl
label_from-eq i (b ∷ bs) =
    ground (arith, nibble_to_hex-eq (b / 16), nibble_to_hex-eq (b % 16), label_from-eq (i + 1) bs)

-- The copy of the expansion in ble.rs, which the log uses, gives for every list of bytes the text
-- that `expand_command_id` returns.
pub expand_command_id-label : (bs : List ℕ) → expand_command_id bs ≡ some (command_id_label bs)
unfolding expand_command_id command_id_label
expand_command_id-label bs = ground (arith, label_from-eq 0 bs)
