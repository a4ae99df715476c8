-- ===== src/Grpc/SetupAcks/Sent.antt =====
-- What `acknowledge_setup_probes_in_database` sends, and what it reports.
use hub_core.Base.{
  zero, suc, ◌++◌, inl, inr, ◌≡◌, ◌∙◌, ap, refl, ℕ, ◌+◌, Bool, true, false, List, [], ◌∷◌, Option,
  none, some, length, if◌then◌else◌, arith, Bool-cases,
}
use hub_core.Base.Int.{pos, epoch_ms}
use hub_core.Base.Text.{Text, ascii}
use hub_core.Base.Result.{Result, ok, err}
use hub_core.Probe.Readings.{get_unix_now_ms}
use hub_core.Provisioning.ProbeList.{SetupProbe}
use hub_core.Grpc.{
  bump, InsertSensorDataRequest, InsertSensorDataResponse, Request, insert_sensor_data, Server,
  Wire, HubClient, bearer, accepted, of_status, connect_with_token,
}
use hub_core.Grpc.SetupAcks.{
  AckError, failed_acks, failures, ack_loop, ack_with, outcome,
  acknowledge_setup_probes_in_database,
}

-- The request for a probe in the n-th call: the values of a reading, in the hundredths that readings keep,
-- which are 20, 50, 18 and 35 in their units.
abbrev pub request_for : Server → ℕ → SetupProbe → InsertSensorDataRequest
request_for e n probe = record {
  node_id = probe.probe_uuid;
  air_temperature = pos 2000;
  air_pressure = 101325;
  air_humidity = 5000;
  soil_temperature = pos 1800;
  soil_humidity = 3500;
  timestamp = epoch_ms (e.clock n);
}

-- The value of the header.
abbrev pub authorization : Text → Text
authorization jwt = ascii "Bearer " ++ jwt

-- The result, where so many of so many were not accepted.
abbrev pub reported : ℕ → ℕ → Result AckError (Unit {0})
reported zero total = ok tt
reported (suc n) total = err (failed_acks (suc n) total)

-- The requests for the probes, the newest first, in front of what was sent before.
pub all_sent : Server → Text → List SetupProbe → ℕ → List (Text × Request) → List (Text × Request)
all_sent e token [] n sent = sent
all_sent e token (p ∷ ps) n sent =
    all_sent e token ps (n + 1) ((token, insert_sensor_data (request_for e n p)) ∷ sent)

abbrev pub is_success : Option InsertSensorDataResponse → Bool
is_success none = false
is_success (some resp) = resp.success

-- How many of the probes the service does not accept.
pub not_accepted : Server → Text → List SetupProbe → ℕ → ℕ
not_accepted e token [] n = 0
not_accepted e token (p ∷ ps) n =
    (if is_success (e.answer_insert n token (request_for e n p)) then 0 else 1)
    + not_accepted e token ps (n + 1)

module _ (e : Server) (ready : (n : ℕ) → e.is_ready n ≡ true) where
  accepted-failures :
      (o : Option InsertSensorDataResponse)
      → failures (accepted (of_status o)) ≡ (if is_success o then 0 else 1)
  accepted-failures none = refl
  accepted-failures (some resp) = elim (Bool-cases resp.success) [
    | inl h ↦ rw h refl
    | inr h ↦ rw h refl
  ]

  abbrev mark : HubClient → SetupProbe → ℕ → ℕ
  mark client p n = if is_success (e.answer_insert n client.token (request_for e n p)) then 0 else 1

  abbrev with_sent : HubClient → SetupProbe → Wire → Wire
  with_sent client p w = record {
    calls = w.calls + 1;
    sent = (client.token, insert_sensor_data (request_for e w.calls p)) ∷ w.sent;
  }

  ack_loop_step :
      (client : HubClient) (p : SetupProbe) (ps : List SetupProbe) (failed : ℕ) (w : Wire)
      → ack_loop e client (p ∷ ps) failed w
        ≡ ack_loop e client ps (failed + mark client p w.calls) (with_sent client p w)
  unfolding ack_loop get_unix_now_ms
  ack_loop_step client p ps failed w =
      rw (ready w.calls) (
        rw (accepted-failures (e.answer_insert w.calls client.token (request_for e w.calls p)))
          refl)

  ack_loop_nil :
      (client : HubClient) (failed : ℕ) (w : Wire) → ack_loop e client [] failed w ≡ (failed, w)
  unfolding ack_loop
  ack_loop_nil client failed w = refl

  ack_loop_lem :
      (client : HubClient) (probes : List SetupProbe) (failed : ℕ) (w : Wire)
      → ack_loop e client probes failed w ≡ (
        failed + not_accepted e client.token probes w.calls,
        record {
          calls = w.calls + length probes;
          sent = all_sent e client.token probes w.calls w.sent;
        },
      )
  unfolding all_sent not_accepted
  ack_loop_lem client [] failed w = ack_loop_nil client failed w ∙ ground arith
  ack_loop_lem client (p ∷ ps) failed w =
      ack_loop_step client p ps failed w
      ∙ ack_loop_lem client ps (failed + mark client p w.calls) (with_sent client p w)
      ∙ ground arith

  outcome-reported : (n total : ℕ) → outcome e n total ≡ reported n total
  outcome-reported zero total = refl
  outcome-reported (suc n) total = ground arith

  ack_with_lem :
      (client : HubClient) (probes : List SetupProbe) (w : Wire)
      → ack_with e probes (ok client, w) ≡ (
        reported (not_accepted e client.token probes w.calls) (length probes),
        record {
          calls = w.calls + length probes;
          sent = all_sent e client.token probes w.calls w.sent;
        },
      )
  unfolding ack_with
  ack_with_lem client probes w =
      ap (λ p. (outcome e p.0 (length probes), p.1)) (ack_loop_lem client probes 0 w)
      ∙ ground
          (arith, outcome-reported (not_accepted e client.token probes w.calls) (length probes))

module _ (e : Server) where
  pub connect_with_token_ok :
      (jwt : Text) (w : Wire)
      → e.connects w.calls ≡ true
      → e.is_metadata (bearer jwt) ≡ true
      → connect_with_token e jwt w ≡ (ok (record { token = bearer jwt }), bump w)
  unfolding connect_with_token
  connect_with_token_ok jwt w connects fits = rw connects (rw fits refl)

  entered :
      (jwt : Text) (p : SetupProbe) (ps : List SetupProbe) (w : Wire)
      → e.runtime_builds w.calls ≡ true
      → acknowledge_setup_probes_in_database e jwt (p ∷ ps) w
        ≡ ack_with e (p ∷ ps) (connect_with_token e jwt w)
  unfolding acknowledge_setup_probes_in_database
  entered jwt p ps w builds = rw builds refl

-- Where the runtime is built, the client connects, the token can stand in a header and the channel is ready for
-- each call, one request with the dummy values and the hub's token is sent for every probe, in their
-- order, also behind one that fails. There is no error exactly if the service has accepted all, and else
-- the error says how many it has not, of how many.
pub acknowledge_setup_probes_in_database_lem :
    (e : Server) (jwt : Text) (probe : SetupProbe) (probes : List SetupProbe) (w : Wire)
    → e.runtime_builds w.calls ≡ true
    → e.connects w.calls ≡ true
    → e.is_metadata (authorization jwt) ≡ true
    → ((n : ℕ) → e.is_ready n ≡ true)
    → let all : List SetupProbe = probe ∷ probes in
      acknowledge_setup_probes_in_database e jwt all w ≡ (
        reported (not_accepted e (authorization jwt) all (w.calls + 1)) (length all),
        record {
          calls = w.calls + 1 + length all;
          sent = all_sent e (authorization jwt) all (w.calls + 1) w.sent;
        },
      )
acknowledge_setup_probes_in_database_lem e jwt probe probes w builds connects fits ready =
    entered e jwt probe probes w builds
    ∙ ap (ack_with e (probe ∷ probes)) (connect_with_token_ok e jwt w connects fits)
    ∙ ack_with_lem e ready (record { token = bearer jwt }) (probe ∷ probes) (bump w)
