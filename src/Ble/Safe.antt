-- ===== src/Ble/Safe.antt =====
-- What a probe can be told to do.
use hub_core.Base.{ℕ, ◌≤◌, ◌<◌, ◌^◌, ◌≡◌, refl, ◌⊎◌, inl, inr, List, ◌∷◌, Option, some, arith}
use hub_core.Base.Int.{pos, ◌≤ℤ◌, pos_part, IsI64}
use hub_core.Base.Text.{Text}
use hub_core.Base.Result.{ok}
use hub_core.Uuid.{parse_uuid_compact_bytes}
use hub_core.Motor.Command.Decode.{MotorFields, decode_command, decode_command-build}
use hub_core.Probe.Readings.{get_unix_now_ms}
use hub_core.Poller.State.{MotorDispatchRequest}
use hub_core.Ble.Link.{Device, Link}
use hub_core.Ble.Visit.{read_probe_and_maybe_dispatch_motor}
use hub_core.Ble.Written.{FrameFor, read_probe_and_maybe_dispatch_motor-honest}

-- The ranges of the Rust types.
abbrev pub IsRequest : MotorDispatchRequest → Type 0
IsRequest r = (pos_part r.duration_ms < 2 ^ 31) × IsI64 r.expires_at_epoch_ms

-- The newest frame tells the probe to do what the request says, for at most 5 s.
abbrev pub SafeFor : MotorDispatchRequest → Link → Link → Type 0
SafeFor r s t =
    (frame : List ℕ) × (f : MotorFields) × (t.written ≡ frame ∷ s.written)
    × (decode_command frame ≡ some f)
    × (f.action ≡ r.action)
    × (parse_uuid_compact_bytes r.command_id ≡ ok f.command_id)
    × (f.duration ≤ 5000)
    × (f.duration ≤ pos_part r.duration_ms)

FrameFor-SafeFor :
    (d : Device) (r : MotorDispatchRequest) (s t : Link)
    → ((n : ℕ) → pos 0 ≤ℤ get_unix_now_ms (d.clock n))
    → IsRequest r
    → FrameFor d r s t
    → SafeFor r s t
FrameFor-SafeFor d r s t clock (fits, range) (frame, n, written, built) =
    let (id, ttl, parsed, left, size, bytes, decoded) =
      decode_command-build r.command_id r.action r.duration_ms r.expires_at_epoch_ms
        (get_unix_now_ms (d.clock n)) frame fits range (clock n) built in
    (frame, _, written, decoded, refl, parsed, omega arith, omega arith)

-- A connection to a probe writes nothing to its motor, or one frame, and from that the probe reads the
-- action and the id of the command that the poller had for some probe, and a duration of at most 5 s and
-- at most what the command says (0 where that is negative). The requests are in the ranges of their types, and the clock is past
-- 1970.
pub read_probe_and_maybe_dispatch_motor-SafeFor :
    (d : Device) (resolve : Text → Option MotorDispatchRequest) (s : Link)
    → ((n : ℕ) → pos 0 ≤ℤ get_unix_now_ms (d.clock n))
    → ((probe : Text) (r : MotorDispatchRequest) → resolve probe ≡ some r → IsRequest r)
    → let t = (read_probe_and_maybe_dispatch_motor d resolve s).1 in
      (t.written ≡ s.written)
      ⊎ ((probe : Text) × (r : MotorDispatchRequest) × (resolve probe ≡ some r) × SafeFor r s t)
read_probe_and_maybe_dispatch_motor-SafeFor d resolve s clock requests =
    elim (read_probe_and_maybe_dispatch_motor-honest d resolve s) [
      | inl (same, rest) ↦ inl same
      | inr (x, r, out, says, asked, frame) ↦ inr (
        x.reading.probe_uuid,
        r,
        asked,
        FrameFor-SafeFor d r s (read_probe_and_maybe_dispatch_motor d resolve s).1 clock
            (requests x.reading.probe_uuid r asked) frame,
      )
    ]
