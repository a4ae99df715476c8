-- ===== src/Motor/Tests.antt =====
-- The theorems of the children of Motor at concrete frames.
use hub_core.Base.{
  ℕ, ◌≤◌, ◌≡◌, ◌↔◌, refl, false, List, [], ◌∷◌, ◌++◌, some, length, All, arith, min,
}
use hub_core.Base.Int.{pos, leb_ℤ, min_ℤ, ◌-ℤ◌, pos_part}
use hub_core.Base.Text.{Text, IsByte, ascii}
use hub_core.Base.Result.{ok}
use hub_core.Uuid.{parse_uuid_compact_bytes}
use hub_core.Motor.Command.{
  write_payload, build_motor_command_payload, payload_len, u32_max, clamped_duration,
  remaining_expiry,
}
use hub_core.Motor.Command.Frame.{command_frame, build_motor_command_payload_iff}
use hub_core.Motor.Command.Decode.{decode_command, decode_command-build}
use hub_core.Motor.Report.{ProbeMotorResult, parse_motor_result_payload}
use hub_core.Motor.Report.Frame.{IsReport, parse_motor_result_payload_iff}

abbrev id_bytes : List ℕ
id_bytes = 0 ∷ 1 ∷ 35 ∷ 69 ∷ 103 ∷ 137 ∷ 171 ∷ 205 ∷ 239 ∷ 255 ∷ 16 ∷ 32 ∷ 48 ∷ 64 ∷ 80 ∷ 250 ∷ []

abbrev id_text : Text
id_text = ascii "00012345-6789-abcd-efff-1020304050fa"

-- 6000 ms are asked for and 5000 granted; 700 ms are left.
abbrev frame_bytes : List ℕ
frame_bytes = ascii "HHMC" ++ (1 ∷ 1 ∷ id_bytes ++ (136 ∷ 19 ∷ 0 ∷ 0 ∷ 188 ∷ 2 ∷ 0 ∷ 0 ∷ []))

build_test : build_motor_command_payload id_text 1 (pos 6000) (pos 1700) (pos 1000) ≡ ok frame_bytes
unfolding build_motor_command_payload parse_uuid_compact_bytes write_payload
build_test = refl

build_motor_command_payload_iff_example :
    (build_motor_command_payload id_text 1 (pos 6000) (pos 1700) (pos 1000) ≡ ok frame_bytes) ↔ (
      (id : List ℕ) × (parse_uuid_compact_bytes id_text ≡ ok id)
      × (1 ≤ 1)
      × (leb_ℤ (pos 1700) (pos 1000) ≡ false)
      × (frame_bytes
          ≡ command_frame 1 id
              (clamped_duration (pos 6000))
              (remaining_expiry (pos 1700) (pos 1000))))
build_motor_command_payload_iff_example =
    build_motor_command_payload_iff id_text 1 (pos 6000) (pos 1700) (pos 1000) frame_bytes

decode_command-build_example :
    (id : List ℕ) × (ttl : ℕ) × (parse_uuid_compact_bytes id_text ≡ ok id)
    × (pos ttl ≡ min_ℤ (pos 1700 -ℤ pos 1000) (pos u32_max))
    × (length frame_bytes ≡ payload_len)
    × All IsByte frame_bytes
    × (decode_command frame_bytes
        ≡ some (record {
          action = 1;
          command_id = id;
          duration = min (pos_part (pos 6000)) 5000;
          ttl = ttl;
        }))
decode_command-build_example =
    decode_command-build id_text 1 (pos 6000) (pos 1700) (pos 1000) frame_bytes (ground arith)
      (ground arith) (ground arith) build_test

-- A FAILED report with a UART timeout.
abbrev report_bytes : List ℕ
report_bytes = ascii "HHMR" ++ (1 ∷ 6 ∷ 7 ∷ id_bytes)

abbrev report : ProbeMotorResult
report = record { status = 6; reason_code = 7; command_id = id_bytes }

report_test : parse_motor_result_payload report_bytes ≡ ok (some report)
unfolding parse_motor_result_payload
report_test = refl

parse_motor_result_payload_iff_example :
    (parse_motor_result_payload report_bytes ≡ ok (some report)) ↔ IsReport report_bytes report
parse_motor_result_payload_iff_example = parse_motor_result_payload_iff report_bytes report
