-- ===== src/Motor/Report/Frame.antt =====
-- The frame of a motor result, as the comment in src/config.rs lays it out, and what
-- `parse_motor_result_payload` reads from any bytes.
use mathlib.Core.List.{append-nil}
use native.Mathlib.Decide.{ℕ_discrete}
use hub_core.Base.{
  ◌∙◌, ap, ◌≢◌, ℕ, zero, suc, ◌≡◌, ◌↔◌, true, ◌&&◌, not, List, [], ◌∷◌, ◌++◌, none, some, arith,
  ◌==◌, if◌then◌else◌, length, take-all, replicate,
}
use hub_core.Base.Text.{text_eq_iff, ascii, text_eq}
use hub_core.Base.Result.{panic, ok, copy_from_slice}
use hub_core.Motor.Report.{ProbeMotorResult, all_zero, parse_motor_result_payload, report_len}

abbrev pub report_frame : ProbeMotorResult → List ℕ
report_frame r = ascii "HHMR" ++ (1 ∷ r.status ∷ r.reason_code ∷ r.command_id)

all_zero_iff : (bs : List ℕ) (n : ℕ) → length bs ≡ n → (all_zero bs ≡ true) ↔ (bs ≡ replicate n 0)
unfolding all_zero
all_zero_iff [] zero e = ground arith
all_zero_iff [] (suc n) e = absurd (omega arith)
all_zero_iff (b ∷ bs) zero e = absurd (omega arith)
all_zero_iff (b ∷ bs) (suc n) e = ground (arith, all_zero_iff bs n (omega arith))

-- The copy into the zeroed array is the slice itself.
copy_id : (id : List ℕ) → length id ≡ 16 → copy_from_slice {E = ⊥} (replicate 16 0) 0 16 id ≡ ok id
copy_id id e = ground (arith, append-nil id)

module _ (a b c d e f g : ℕ) (id : List ℕ) (l : length id ≡ 16) where
  -- The parser on bytes of the right length.
  parse_of_length : parse_motor_result_payload (a ∷ b ∷ c ∷ d ∷ e ∷ f ∷ g ∷ id) ≡ (
      if text_eq (a ∷ b ∷ c ∷ d ∷ []) (ascii "HHMR") && e == 1 && not (all_zero id)
      then ok (some (record { status = f; reason_code = g; command_id = id }))
      else ok none)
  unfolding parse_motor_result_payload
  parse_of_length = ground (arith, copy_id id l, take-all 16 id l)

  -- It gives a result exactly for the marker, the version and an id that is not all zero.
  parse_of_length_iff :
      (r : ProbeMotorResult)
      → (parse_motor_result_payload (a ∷ b ∷ c ∷ d ∷ e ∷ f ∷ g ∷ id) ≡ ok (some r))
        ↔ (((a ∷ b ∷ c ∷ d ∷ e ∷ f ∷ g ∷ id) ≡ report_frame r) × (r.command_id ≢ replicate 16 0))
  parse_of_length_iff r = (
    λ p. ground (
      arith,
      parse_of_length,
      text_eq_iff (a ∷ b ∷ c ∷ d ∷ []) (ascii "HHMR"),
      all_zero_iff id 16 l,
    ),
    λ p. ground (
      arith,
      parse_of_length,
      text_eq_iff (a ∷ b ∷ c ∷ d ∷ []) (ascii "HHMR"),
      all_zero_iff id 16 l,
    ),
  )

wrong_length : (raw : List ℕ) → length raw ≢ report_len → parse_motor_result_payload raw ≡ ok none
unfolding parse_motor_result_payload
wrong_length raw h = ground arith

abbrev pub IsReport : List ℕ → ProbeMotorResult → Type 0
IsReport raw r =
    (raw ≡ report_frame r) × (length r.command_id ≡ 16) × (r.command_id ≢ replicate 16 0)

-- Neither side holds at another length.
wrong_length_iff :
    (raw : List ℕ) (r : ProbeMotorResult)
    → length raw ≢ report_len
    → (parse_motor_result_payload raw ≡ ok (some r)) ↔ IsReport raw r
wrong_length_iff raw r h = (
  λ p. absurd (ground (arith, wrong_length raw h)),
  λ (p, l, _). absurd (h (ap length p ∙ omega arith)),
)

right_length_iff :
    (a b c d e f g : ℕ) (id : List ℕ) (r : ProbeMotorResult)
    → length id ≡ 16
    → (parse_motor_result_payload (a ∷ b ∷ c ∷ d ∷ e ∷ f ∷ g ∷ id) ≡ ok (some r))
      ↔ IsReport (a ∷ b ∷ c ∷ d ∷ e ∷ f ∷ g ∷ id) r
right_length_iff a b c d e f g id r l = (
  λ p. let (q, n) = (parse_of_length_iff a b c d e f g id l r).0 p in (q, ground arith, n),
  λ (p, m, n). (parse_of_length_iff a b c d e f g id l r).1 (p, n),
)

-- `parse_motor_result_payload` returns a result exactly for the frames of the layout whose 16-byte
-- id is not all zero, and then it is the status, the reason and the id that the frame holds.
pub parse_motor_result_payload_iff :
    (raw : List ℕ) (r : ProbeMotorResult)
    → (parse_motor_result_payload raw ≡ ok (some r)) ↔ IsReport raw r
parse_motor_result_payload_iff (a ∷ b ∷ c ∷ d ∷ e ∷ f ∷ g ∷ id) r =
    elim (ℕ_discrete (length id) 16) [
      | yes l ↦ right_length_iff a b c d e f g id r l
      | no n ↦ wrong_length_iff (a ∷ b ∷ c ∷ d ∷ e ∷ f ∷ g ∷ id) r (λ l. n (omega arith))
    ]
parse_motor_result_payload_iff raw r = wrong_length_iff raw r (λ l. absurd (omega arith))

-- No bytes make `parse_motor_result_payload` read outside them.
pub parse_motor_result_payload-ne-panic : (raw : List ℕ) → parse_motor_result_payload raw ≢ panic
parse_motor_result_payload-ne-panic (a ∷ b ∷ c ∷ d ∷ e ∷ f ∷ g ∷ id) p =
    elim (ℕ_discrete (length id) 16) [
      | yes l ↦ ground (arith, parse_of_length a b c d e f g id l)
      | no n ↦ ground (arith, wrong_length (a ∷ b ∷ c ∷ d ∷ e ∷ f ∷ g ∷ id) (λ l. n (omega arith)))
    ]
parse_motor_result_payload-ne-panic raw p =
    ground (arith, wrong_length raw (λ l. absurd (omega arith)))
