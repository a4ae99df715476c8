-- ===== src/Motor/Command/Frame.antt =====
-- What a command frame says: the layout that the comment in src/config.rs lays down for the probe,
-- read from the bytes, and the frame that `build_motor_command_payload` builds.
use hub_core.Base.{
  ◌≢◌, ℕ, ◌+◌, ◌≤◌, ◌≡◌, ◌↔◌, inl, inr, false, List, [], ◌∷◌, ◌++◌, arith, leb, replicate, length,
  drop, length-append, if◌then◌else◌,
}
use mathlib.Core.List.{append_assoc}
use hub_core.Base.Int.{ℤ, leb_ℤ}
use hub_core.Base.Text.{Text, ascii}
use hub_core.Base.Result.{
  Result-cases, ok, err, panic, ◌>>=◌, copy_from_slice, copy_from_slice-append,
}
use hub_core.Uuid.{UuidError, parse_uuid_compact_bytes}
use hub_core.Uuid.Range.{parse_uuid_compact_bytes-ne-panic, parse_uuid_compact_bytes-IsByte}
use hub_core.Motor.Command.{
  BuildError, to_le_bytes, write_payload, clamped_duration, remaining_expiry,
  build_motor_command_payload, unsupported_action, invalid_command_id, expired_before_encode,
}

-- The bytes of the frame, field by field.
abbrev pub command_frame : ℕ → List ℕ → ℕ → ℕ → List ℕ
command_frame action command_id duration expiry =
    ascii "HHMC" ++ (1 ∷ action ∷ (command_id ++ (to_le_bytes duration ++ to_le_bytes expiry)))

-- Four bytes written behind the id, `k` bytes after it, with `m` bytes to follow.
copy_behind :
    (a b c d e f v : ℕ) (id middle rest : List ℕ)
    → length id ≡ 16
    → 4 ≤ length rest
    → copy_from_slice {E = BuildError}
        (a ∷ b ∷ c ∷ d ∷ e ∷ f ∷ (id ++ (middle ++ rest)))
        (22 + length middle)
        (26 + length middle)
        (to_le_bytes v)
      ≡ ok (a ∷ b ∷ c ∷ d ∷ e ∷ f ∷ (id ++ (middle ++ (to_le_bytes v ++ drop 4 rest))))
copy_behind a b c d e f v id middle rest i r =
    rw (← append_assoc id middle rest, ← append_assoc id middle (to_le_bytes v ++ drop 4 rest))
      (copy_from_slice-append (a ∷ b ∷ c ∷ d ∷ e ∷ f ∷ (id ++ middle)) rest (to_le_bytes v)
        (22 + length middle) (26 + length middle) (omega (arith, length-append id middle))
        (omega arith) r)

-- The writes leave each field in its place, and none of them is out of range.
write_payload_lem :
    (action : ℕ) (command_id : List ℕ) (duration expiry : ℕ)
    → length command_id ≡ 16
    → write_payload action command_id duration expiry
      ≡ ok (command_frame action command_id duration expiry)
unfolding write_payload
write_payload_lem action command_id duration expiry e = rw e (
    rw
      (
        copy_behind 72 72 77 67 1 action duration command_id [] (replicate 8 0) e (omega arith),
        ◌>>=◌,
      )
      (copy_behind 72 72 77 67 1 action expiry command_id (to_le_bytes duration) (replicate 4 0) e
        (omega arith)))

module _ (command_id : Text) (action : ℕ) (duration expires now : ℤ) where
  -- With the id parsed, what is left is the two tests and the frame.
  build_of_id :
      (id : List ℕ)
      → parse_uuid_compact_bytes command_id ≡ ok id
      → build_motor_command_payload command_id action duration expires now ≡ (
          if leb action 1
          then (if leb_ℤ expires now
              then err expired_before_encode
              else ok (
                  command_frame action id
                    (clamped_duration duration)
                    (remaining_expiry expires now)))
          else err (unsupported_action action))
  unfolding build_motor_command_payload
  build_of_id id e = ground (
    arith,
    write_payload_lem action id (clamped_duration duration) (remaining_expiry expires now)
        (parse_uuid_compact_bytes-IsByte command_id id e).0,
  )

  build_of_err :
      (x : UuidError)
      → parse_uuid_compact_bytes command_id ≡ err x
      → build_motor_command_payload command_id action duration expires now
        ≡ (if leb action 1 then err (invalid_command_id x) else err (unsupported_action action))
  unfolding build_motor_command_payload
  build_of_err x e = ground arith

-- `build_motor_command_payload` returns a frame exactly when the action is one of the two that the
-- probe knows, the id is a UUID text, and the command has not expired by the clock; the frame has
-- the fields of `command_frame`, with the clamped duration and the remaining time.
pub build_motor_command_payload_iff :
    (command_id : Text) (action : ℕ) (duration expires now : ℤ) (p : List ℕ)
    → (build_motor_command_payload command_id action duration expires now ≡ ok p) ↔ (
        (id : List ℕ) × (parse_uuid_compact_bytes command_id ≡ ok id)
        × (action ≤ 1)
        × (leb_ℤ expires now ≡ false)
        × (p ≡ command_frame action id (clamped_duration duration) (remaining_expiry expires now)))
unfolding build_motor_command_payload
build_motor_command_payload_iff command_id action duration expires now p = (
  λ e. elim (Result-cases (parse_uuid_compact_bytes command_id)) [
    | inl (id, h) ↦
        let b = build_of_id command_id action duration expires now id h in
        (id, h, ground arith, ground arith, ground arith)
    | inr (inl (x, h)) ↦
        let b = build_of_err command_id action duration expires now x h in absurd (ground arith)
    | inr (inr h) ↦ absurd (ground arith)
  ],
  λ h. let b = build_of_id command_id action duration expires now h.0 h.1 in ground arith,
)

-- No input makes `build_motor_command_payload` write outside the array or copy a slice of another
-- length.
pub build_motor_command_payload-ne-panic :
    (command_id : Text) (action : ℕ) (duration expires now : ℤ)
    → build_motor_command_payload command_id action duration expires now ≢ panic
build_motor_command_payload-ne-panic command_id action duration expires now e =
    elim (Result-cases (parse_uuid_compact_bytes command_id)) [
      | inl (id, h) ↦
          let b = build_of_id command_id action duration expires now id h in ground arith
      | inr (inl (x, h)) ↦
          let b = build_of_err command_id action duration expires now x h in ground arith
      | inr (inr h) ↦ parse_uuid_compact_bytes-ne-panic command_id h
    ]
