-- ===== src/Motor/Command/Decode.antt =====
-- The probe's side of the command frame, from the layout that the comment in src/config.rs gives,
-- and what it reads from a frame that the hub built.
use mathlib.Core.Path.{subst}
use hub_core.Base.{
  ℕ, ◌+◌, ◌*◌, ◌^◌, ◌<◌, ◌≤◌, ◌≡◌, ap, ◌∙◌, sym, false, ◌&&◌, List, [], ◌∷◌, ◌++◌, Option, none,
  some, arith, ◌==◌, min, length, take, drop, take-append, drop-append, length-append, All,
  All-append, if◌then◌else◌, get_elem?,
}
use hub_core.Base.Int.{ℤ, pos, leb_ℤ, min_ℤ, IsI64, ◌≤ℤ◌, pos_part, ◌-ℤ◌}
use hub_core.Base.Text.{Text, ascii, IsByte, text_eq}
use hub_core.Base.Result.{ok}
use hub_core.Uuid.{parse_uuid_compact_bytes}
use hub_core.Uuid.Range.{parse_uuid_compact_bytes-IsByte}
use hub_core.Motor.Command.{
  to_le_bytes, clamped_duration, remaining_expiry, build_motor_command_payload, payload_len,
  u32_max,
}
use hub_core.Motor.Command.Frame.{command_frame, build_motor_command_payload_iff}

pub record MotorFields : Type 0 where
  pub action : ℕ
  pub command_id : List ℕ
  pub duration : ℕ
  pub ttl : ℕ

-- A little-endian u32.
unfoldable pub read_le : List ℕ → ℕ
read_le [] = 0
read_le (b ∷ bs) = b + 256 * read_le bs

abbrev byte_at : List ℕ → ℕ → ℕ
byte_at xs i = elim (get_elem? xs i) [ none ↦ 0 | some b ↦ b ]

-- [0..4] magic, [4] version, [5] action, [6..22] id, [22..26] duration, [26..30] time to live.
unfoldable pub decode_command : List ℕ → Option MotorFields
unfolding read_le
decode_command p =
    if length p == 30 && text_eq (take 4 p) (ascii "HHMC") && byte_at p 4 == 1
    then some (record {
      action = byte_at p 5;
      command_id = take 16 (drop 6 p);
      duration = read_le (take 4 (drop 22 p));
      ttl = read_le (take 4 (drop 26 p));
    })
    else none

read_le-to_le_bytes : (x : ℕ) → x < 2 ^ 32 → read_le (to_le_bytes x) ≡ x
unfolding read_le
read_le-to_le_bytes x h = omega arith

decode_command-command_frame :
    (action duration ttl : ℕ) (id : List ℕ)
    → length id ≡ 16
    → duration < 2 ^ 32
    → ttl < 2 ^ 32
    → decode_command (command_frame action id duration ttl)
      ≡ some (record { action = action; command_id = id; duration = duration; ttl = ttl })
unfolding decode_command text_eq
decode_command-command_frame action duration ttl id l d t = ground (
  arith,
  length-append id (to_le_bytes duration ++ to_le_bytes ttl),
  take-append 16 id (to_le_bytes duration ++ to_le_bytes ttl) l,
  drop-append 16 0 id (to_le_bytes duration ++ to_le_bytes ttl) l,
  drop-append 16 4 id (to_le_bytes duration ++ to_le_bytes ttl) l,
  read_le-to_le_bytes duration d,
  read_le-to_le_bytes ttl t,
)

remaining_expiry-lt : (expires now : ℤ) → remaining_expiry expires now < 2 ^ 32
remaining_expiry-lt expires now = ground arith

clamped_duration-le : (duration : ℤ) → clamped_duration duration ≤ 5000
clamped_duration-le duration = ground arith

clamped_duration_lem :
    (duration : ℤ)
    → pos_part duration < 2 ^ 31
    → clamped_duration duration ≡ min (pos_part duration) 5000
clamped_duration_lem duration h = ground arith

-- No wrap-around: the clock is not negative, so the difference fits.
remaining_expiry_lem :
    (expires now : ℤ)
    → IsI64 expires
    → pos 0 ≤ℤ now
    → leb_ℤ expires now ≡ false
    → pos (remaining_expiry expires now) ≡ min_ℤ (expires -ℤ now) (pos u32_max)
remaining_expiry_lem expires now i n l = ground arith

command_frame-IsByte :
    (action duration ttl : ℕ) (id : List ℕ)
    → action ≤ 1
    → (length id ≡ 16) × All IsByte id
    → (length (command_frame action id duration ttl) ≡ payload_len)
      × All IsByte (command_frame action id duration ttl)
command_frame-IsByte action duration ttl id a (l, h) = (
  omega (arith, length-append id (to_le_bytes duration ++ to_le_bytes ttl)),
  (
    omega arith,
    (
      omega arith,
      (
        omega arith,
        (
          omega arith,
          (
            omega arith,
            (
              omega arith,
              All-append IsByte id (to_le_bytes duration ++ to_le_bytes ttl) h (omega arith),
            ),
          ),
        ),
      ),
    ),
  ),
)

-- A frame that `build_motor_command_payload` returns is 30 bytes, and the probe reads from it the
-- action and the 16 bytes of the id that were given, a duration of at most 5000 ms (0 for a negative
-- one), and the time that is left until `expires`, at most 2^32 - 1 ms. The duration is an i32, the
-- expiry an i64, and the clock not before 1970.
pub decode_command-build :
    (command_id : Text) (action : ℕ) (duration expires now : ℤ) (p : List ℕ)
    → pos_part duration < 2 ^ 31
    → IsI64 expires
    → pos 0 ≤ℤ now
    → build_motor_command_payload command_id action duration expires now ≡ ok p
    → (id : List ℕ) × (ttl : ℕ) × (parse_uuid_compact_bytes command_id ≡ ok id)
      × (pos ttl ≡ min_ℤ (expires -ℤ now) (pos u32_max))
      × (length p ≡ payload_len)
      × All IsByte p
      × (decode_command p
          ≡ some (record {
            action = action;
            command_id = id;
            duration = min (pos_part duration) 5000;
            ttl = ttl;
          }))
decode_command-build command_id action duration expires now p d i n e =
    let (id, h, a, late, q) =
      (build_motor_command_payload_iff command_id action duration expires now p).0 e in
    let bytes = parse_uuid_compact_bytes-IsByte command_id id h in
    let (l, b) =
      command_frame-IsByte action (clamped_duration duration) (remaining_expiry expires now) id a
        bytes in
    let read =
      decode_command-command_frame action (clamped_duration duration) (remaining_expiry expires now)
        id bytes.0 (omega (arith, clamped_duration-le duration))
        (remaining_expiry-lt expires now) in
    (
      id,
      remaining_expiry expires now,
      h,
      remaining_expiry_lem expires now i n late,
      ap length q ∙ l,
      subst (All IsByte) (sym q) b,
      rw q (rw (← clamped_duration_lem duration d) read),
    )

-- Whatever a command says, the probe reads from its frame an action that it knows, and at most 5 s.
pub build-limited :
    (command_id : Text) (action : ℕ) (duration expires now : ℤ) (p : List ℕ)
    → build_motor_command_payload command_id action duration expires now ≡ ok p
    → (f : MotorFields) × (decode_command p ≡ some f) × (f.action ≤ 1) × (f.duration ≤ 5000)
build-limited command_id action duration expires now p e =
    let (id, h, a, late, q) =
      (build_motor_command_payload_iff command_id action duration expires now p).0 e in
    let bytes = parse_uuid_compact_bytes-IsByte command_id id h in
    let read =
      decode_command-command_frame action (clamped_duration duration) (remaining_expiry expires now)
        id bytes.0 (omega (arith, clamped_duration-le duration))
        (remaining_expiry-lt expires now) in
    (
      record {
        action = action;
        command_id = id;
        duration = clamped_duration duration;
        ttl = remaining_expiry expires now;
      },
      rw q read,
      a,
      clamped_duration-le duration,
    )
