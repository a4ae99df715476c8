-- ===== src/Grpc/Uplink/Delivered.antt =====
-- What `upload_reading` sends, and when it stops.
use hub_core.Base.{
  inl, inr, ◌⊎◌, ◌≡◌, ◌∙◌, ap, refl, ℕ, zero, suc, ◌+◌, ◌≤◌, ◌<◌, true, false, List, ◌∷◌, ◌++◌,
  replicate, if◌then◌else◌, ltb, arith, Bool-cases,
}
use hub_core.Base.Text.{Text}
use hub_core.Base.Result.{Result, ok, err, panic}
use hub_core.Grpc.{
  Request, insert_sensor_data, Server, Wire, GrpcError, HubClient, bearer, request_of, unary,
  connect_with_token, send_data,
}
use hub_core.Net.Uplink.{max_attempts}
use hub_core.Grpc.Uplink.{
  SensorReading, data_of, Upload, UploadError, went_through, not_sent_if, send_with,
  upload_reading_once, upload_loop, upload_reading,
}

-- The one message that an upload sends.
abbrev pub message_of : Text → SensorReading → Text × Request
message_of jwt r = (bearer jwt, insert_sensor_data (request_of (data_of r)))

-- `k` copies of the message in front of what was sent before.
abbrev pub Copies : Text → SensorReading → ℕ → Wire → Wire → Type 0
Copies jwt r k w w' = w'.sent ≡ replicate k (message_of jwt r) ++ w.sent

module _ (e : Server) (jwt : Text) (r : SensorReading) where
  connect-sent : (w : Wire) → (connect_with_token e jwt w).1.sent ≡ w.sent
  unfolding connect_with_token
  connect-sent w = ground arith

  connect-token :
      (w : Wire) (client : HubClient)
      → (connect_with_token e jwt w).0 ≡ ok client
      → client.token ≡ bearer jwt
  unfolding connect_with_token
  connect-token w client h = ground arith

  -- One attempt sends the message or nothing, and sends it where it goes through.
  send_data-copies :
      (client : HubClient) (w : Wire)
      → client.token ≡ bearer jwt
      → ((send_data e (data_of r) client w).1.sent ≡ message_of jwt r ∷ w.sent)
        ⊎ (((send_data e (data_of r) client w).1.sent ≡ w.sent)
            × (went_through (not_sent_if (send_data e (data_of r) client w).0) ≡ false))
  unfolding send_data unary
  send_data-copies client w h = elim (Bool-cases (e.is_ready w.calls)) [
    | inl ready ↦ inl (ground arith)
    | inr not_yet ↦ inr (ground arith)
  ]

  -- One more message, or none and a failed attempt.
  OneMore : Wire → Result UploadError (Unit {0}) × Wire → Type 0
  OneMore w p =
      (p.1.sent ≡ message_of jwt r ∷ w.sent) ⊎ ((p.1.sent ≡ w.sent) × (went_through p.0 ≡ false))

  send_with-one :
      (p : Result GrpcError HubClient × Wire)
      → ((client : HubClient) → p.0 ≡ ok client → client.token ≡ bearer jwt)
      → OneMore p.1 (send_with e jwt r p)
  unfolding OneMore send_with
  send_with-one (ok client, w) h = send_data-copies client w (h client refl)
  send_with-one (err x, w) h = inr (refl, refl)
  send_with-one (panic, w) h = inr (refl, refl)

  once-one : (w : Wire) → OneMore w (upload_reading_once e jwt r w)
  unfolding OneMore upload_reading_once
  once-one w = elim (Bool-cases (e.runtime_builds w.calls)) [
    | inr broken ↦ rw broken (inr (refl, refl))
    | inl builds ↦ rw builds (
        let one = send_with-one (connect_with_token e jwt w) (connect-token w) in
        rw (connect-sent w) at one)
  ]

  -- What `left` attempts behind `u` come to.
  Uploaded : ℕ → Upload → Upload → Type 0
  Uploaded left u v =
      (k : ℕ) × (k ≤ left)
      × Copies jwt r k u.wire v.wire
      × (((v.delivered ≡ true) × (0 < k))
          ⊎ ((v.delivered ≡ false) × (v.attempts ≡ u.attempts + left)))

  replicate-snoc :
      (k : ℕ) (m : Text × Request) (rest : List (Text × Request))
      → replicate k m ++ m ∷ rest ≡ m ∷ (replicate k m ++ rest)
  replicate-snoc zero m rest = refl
  replicate-snoc (suc k) m rest = ap (λ l. m ∷ l) (replicate-snoc k m rest)

  -- An attempt that failed, and those behind it.
  after_failure :
      (left : ℕ) (u t v : Upload)
      → (t.wire.sent ≡ message_of jwt r ∷ u.wire.sent) ⊎ (t.wire.sent ≡ u.wire.sent)
      → t.attempts ≡ u.attempts + 1
      → Uploaded left t v
      → Uploaded (suc left) u v
  unfolding Uploaded
  after_failure left u t v (inl more) a (k, le, sent, ends) =
      let all : v.wire.sent ≡ message_of jwt r ∷ (replicate k (message_of jwt r) ++ u.wire.sent) =
        sent
        ∙ ap (λ l. replicate k (message_of jwt r) ++ l) more
        ∙ replicate-snoc k (message_of jwt r) u.wire.sent in
      (
        suc k,
        omega arith,
        all,
        elim ends [ inl (d, pos) ↦ inl (d, omega arith) | inr (d, n) ↦ inr (d, omega arith) ],
      )
  after_failure left u t v (inr same) a (k, le, sent, ends) = (
    k,
    omega arith,
    sent ∙ ap (λ l. replicate k (message_of jwt r) ++ l) same,
    elim ends [ inl h ↦ inl h | inr (d, n) ↦ inr (d, omega arith) ],
  )

  -- The state behind an attempt, and in front of the next one.
  abbrev pub tried : Upload → Upload
  tried u = record u { attempts = u.attempts + 1; wire = (upload_reading_once e jwt r u.wire).1 }

  abbrev pub before_next : ℕ → Upload → Upload
  before_next attempt u =
      if ltb attempt max_attempts then record (tried u) { slept = u.slept + 1 } else tried u

  pub upload_loop_done :
      (left attempt : ℕ) (u : Upload)
      → went_through (upload_reading_once e jwt r u.wire).0 ≡ true
      → upload_loop e jwt r (suc left) attempt u ≡ record (tried u) { delivered = true }
  unfolding upload_loop
  upload_loop_done left attempt u h = rw h refl

  pub upload_loop_again :
      (left attempt : ℕ) (u : Upload)
      → went_through (upload_reading_once e jwt r u.wire).0 ≡ false
      → upload_loop e jwt r (suc left) attempt u
        ≡ upload_loop e jwt r left (attempt + 1) (before_next attempt u)
  unfolding upload_loop
  upload_loop_again left attempt u h = rw h refl

  pub before_next-same :
      (attempt : ℕ) (u : Upload)
      → ((before_next attempt u).wire ≡ (upload_reading_once e jwt r u.wire).1)
        × ((before_next attempt u).attempts ≡ u.attempts + 1)
  before_next-same attempt u = ground arith

  pub upload_loop_zero :
      (attempt : ℕ) (u : Upload) → upload_loop e jwt r 0 attempt u ≡ record u { delivered = false }
  unfolding upload_loop
  upload_loop_zero attempt u = refl

  upload_loop-Uploaded :
      (left attempt : ℕ) (u : Upload) → Uploaded left u (upload_loop e jwt r left attempt u)
  unfolding Uploaded OneMore
  upload_loop-Uploaded zero attempt u =
      rw (upload_loop_zero attempt u) (0, omega arith, refl, inr (refl, omega arith))
  upload_loop-Uploaded (suc left) attempt u =
      elim (Bool-cases (went_through (upload_reading_once e jwt r u.wire).0)) [
        | inl good ↦ rw (upload_loop_done left attempt u good) (elim (once-one u.wire) [
          | inl more ↦ (1, omega arith, more, inl (refl, omega arith))
          | inr (same, bad) ↦ absurd (ground arith)
        ])
        | inr bad ↦ rw (upload_loop_again left attempt u bad) (
            let (wire, attempts) = before_next-same attempt u in
            after_failure left u (before_next attempt u)
              (upload_loop e jwt r left (attempt + 1) (before_next attempt u))
              (rw wire (elim (once-one u.wire) [ inl more ↦ inl more | inr p ↦ inr p.0 ])) attempts
              (upload_loop-Uploaded left (attempt + 1) (before_next attempt u)))
      ]

-- `upload_reading` makes at most three attempts, all of which send the one request that carries the
-- reading's values under the hub's token; it ends with an attempt that the service accepted, for which
-- the request was sent, or behind three that failed.
pub upload_reading-delivered :
    (e : Server) (jwt : Text) (r : SensorReading) (w : Wire)
    → let u = upload_reading e jwt r w in
      (k : ℕ) × (k ≤ 3)
      × Copies jwt r k w u.wire
      × (((u.delivered ≡ true) × (0 < k)) ⊎ ((u.delivered ≡ false) × (u.attempts ≡ 3)))
unfolding upload_reading Uploaded
upload_reading-delivered e jwt r w =
    upload_loop-Uploaded e jwt r 3 1
      (record { delivered = false; attempts = 0; slept = 0; wire = w })
