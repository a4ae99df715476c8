-- ===== src/Grpc/Uplink/Tries.antt =====
-- The attempts of `upload_reading`, one by one, and what ends them.
use hub_core.Base.{
  ◌≡◌, refl, ℕ, zero, suc, ◌+◌, ◌-◌, ◌≤◌, ◌<◌, Bool, true, false, List, ◌∷◌, Option, none, some,
  ltb, arith, Bool-cases, inl, inr,
}
use hub_core.Base.Text.{Text}
use hub_core.Base.Result.{Result}
use hub_core.Grpc.{
  bump, InsertSensorDataRequest, InsertSensorDataResponse, Request, insert_sensor_data, Server,
  Wire, of_status, accepted, unary, connect_with_token, send_data,
}
use hub_core.Grpc.SetupAcks.Sent.{authorization, is_success}
use hub_core.Grpc.Uplink.Delivered.{
  before_next, before_next-same, upload_loop_done, upload_loop_again, upload_loop_zero,
}
use hub_core.Net.Uplink.{max_attempts}
use hub_core.Grpc.Uplink.{
  SensorReading, Upload, UploadError, went_through, not_sent_if, send_with, upload_reading_once,
  upload_loop, upload_reading,
}

abbrev pub values_of : SensorReading → InsertSensorDataRequest
values_of r = record {
  node_id = r.node_id;
  air_temperature = r.air_temperature_c;
  air_pressure = r.air_pressure_pa;
  air_humidity = r.air_humidity_pct;
  soil_temperature = r.soil_temperature_c;
  soil_humidity = r.soil_humidity_pct;
  timestamp = r.timestamp_unix;
}

-- The message in front of what was sent.
abbrev pub with_message : Text → SensorReading → Wire → List (Text × Request)
with_message jwt r w = (authorization jwt, insert_sensor_data (values_of r)) ∷ w.sent

-- One attempt, from one state of the wire to another: whether it goes through.
pub data Attempt (e : Server) (jwt : Text) (r : SensorReading) (w : Wire)
    : Bool → Wire → Type 0 where
  no_runtime_there : e.runtime_builds w.calls ≡ false → Attempt e jwt r w false (bump w)
  off_line :
      e.runtime_builds w.calls ≡ true
      → e.connects w.calls ≡ false
      → Attempt e jwt r w false (bump w)
  no_header :
      e.runtime_builds w.calls ≡ true
      → e.connects w.calls ≡ true
      → e.is_metadata (authorization jwt) ≡ false
      → Attempt e jwt r w false (bump w)
  channel_busy :
      e.runtime_builds w.calls ≡ true
      → e.connects w.calls ≡ true
      → e.is_metadata (authorization jwt) ≡ true
      → e.is_ready (w.calls + 1) ≡ false
      → Attempt e jwt r w false (bump (bump w))
  answered :
      e.runtime_builds w.calls ≡ true
      → e.connects w.calls ≡ true
      → e.is_metadata (authorization jwt) ≡ true
      → e.is_ready (w.calls + 1) ≡ true
      → Attempt e jwt r w
          (is_success (e.answer_insert (w.calls + 1) (authorization jwt) (values_of r)))
          (record { calls = w.calls + 1 + 1; sent = with_message jwt r w })

-- Attempts, so many of which are allowed: how many are made, whether the last one goes through, and the
-- wire behind them. The first that goes through is the last one.
pub data Tries (e : Server) (jwt : Text) (r : SensorReading)
    : ℕ → Wire → ℕ → Bool → Wire → Type 0 where
  given_up : {w : Wire} → Tries e jwt r 0 w 0 false w
  delivered_now :
      {left : ℕ} {w v : Wire} → Attempt e jwt r w true v → Tries e jwt r (suc left) w 1 true v
  tried_again :
      {left made : ℕ} {w v u : Wire} {b : Bool}
      → Attempt e jwt r w false v
      → Tries e jwt r left v made b u
      → Tries e jwt r (suc left) w (suc made) b u

module _ (e : Server) (jwt : Text) (r : SensorReading) where
  abbrev Attempted : Wire → Result UploadError (Unit {0}) × Wire → Type 0
  Attempted w p = Attempt e jwt r w (went_through p.0) p.1

  of_answer :
      (o : Option InsertSensorDataResponse)
      → went_through (not_sent_if (accepted (of_status o))) ≡ is_success o
  of_answer none = refl
  of_answer (some resp) = elim (Bool-cases resp.success) [
    | inl fine ↦ rw fine refl
    | inr refused ↦ rw refused refl
  ]

  once-Attempted : (w : Wire) → Attempted w (upload_reading_once e jwt r w)
  unfolding upload_reading_once send_with connect_with_token send_data unary
  once-Attempted w = elim (Bool-cases (e.runtime_builds w.calls)) [
    | inr broken ↦ rw broken (no_runtime_there broken)
    | inl builds ↦ elim (Bool-cases (e.connects w.calls)) [
      | inr off ↦ rw (builds, off) (off_line builds off)
      | inl on ↦ elim (Bool-cases (e.is_metadata (authorization jwt))) [
        | inr bad ↦ rw (builds, on, bad) (no_header builds on bad)
        | inl good ↦ elim (Bool-cases (e.is_ready (w.calls + 1))) [
          | inr not_yet ↦ rw (builds, on, good, not_yet) (channel_busy builds on good not_yet)
          | inl ready ↦
              rw (builds, on, good, ready)
                (rw (of_answer (e.answer_insert (w.calls + 1) (authorization jwt) (values_of r)))
                  (answered builds on good ready))
        ]
      ]
    ]
  ]

  -- What `left` attempts behind `u` come to, with a pause between two.
  abbrev Tried : ℕ → Upload → Upload → Type 0
  Tried left u v =
      (made : ℕ) × (v.attempts ≡ u.attempts + made)
      × Tries e jwt r left u.wire made v.delivered v.wire
      × (v.slept ≡ u.slept + (made - 1))
      × (made ≤ left)
      × (0 < left → 0 < made)

  first_fails :
      (left attempt : ℕ) (u v : Upload)
      → attempt + left ≡ 3
      → Attempt e jwt r u.wire false (upload_reading_once e jwt r u.wire).1
      → Tried left (before_next e jwt r attempt u) v
      → Tried (suc left) u v
  first_fails left attempt u v h fails (made, attempts, tries, slept, most, one) =
      let (wire, count) = before_next-same e jwt r attempt u in
      (
        suc made,
        omega (arith, attempts, count),
        tried_again fails (rw wire at tries),
        elim (Bool-cases (ltb attempt max_attempts)) [
          | inl pause ↦ ground (arith, slept, one (ground arith))
          | inr last ↦ ground (arith, slept, most)
        ],
        omega (arith, most),
        λ more. omega arith,
      )

  upload_loop-Tried :
      (left attempt : ℕ) (u : Upload)
      → attempt + left ≡ 4
      → Tried left u (upload_loop e jwt r left attempt u)
  upload_loop-Tried zero attempt u h =
      rw (upload_loop_zero e jwt r attempt u)
        (0, omega arith, given_up, omega arith, omega arith, λ more. omega arith)
  upload_loop-Tried (suc left) attempt u h =
      let once = once-Attempted u.wire in
      elim (Bool-cases (went_through (upload_reading_once e jwt r u.wire).0)) [
        | inl good ↦ rw (upload_loop_done e jwt r left attempt u good) (
          1,
          refl,
          delivered_now (rw good at once),
          omega arith,
          omega arith,
          λ more. omega arith,
        )
        | inr bad ↦ rw (upload_loop_again e jwt r left attempt u bad) (
            first_fails left attempt u
              (upload_loop e jwt r left (attempt + 1) (before_next e jwt r attempt u)) (omega arith)
              (rw bad at once)
              (upload_loop-Tried left (attempt + 1) (before_next e jwt r attempt u) (omega arith)))
      ]

-- `upload_reading` makes attempts until one goes through, and three at most, with one pause between two. An
-- attempt that gets as far as that sends one request, which carries the reading's values and the hub's
-- token, and goes through exactly if the service answers it with success; any other sends nothing and
-- does not go through. The reading counts as delivered exactly if the last attempt went through.
pub upload_reading-Tries :
    (e : Server) (jwt : Text) (r : SensorReading) (w : Wire)
    → let u = upload_reading e jwt r w in
      Tries e jwt r 3 w u.attempts u.delivered u.wire × (u.slept + 1 ≡ u.attempts)
unfolding upload_reading
upload_reading-Tries e jwt r w =
    let (made, n, tries, slept, most, one) =
      upload_loop-Tried e jwt r 3 1
        (record { delivered = false; attempts = 0; slept = 0; wire = w }) refl in
    let some_made : 0 < made = one (omega arith) in
    let same : made ≡ (upload_reading e jwt r w).attempts = omega (arith, n) in
    (rw same at tries, omega (arith, slept, some_made, n))
