-- ===== src/Grpc/Uplink.antt =====
-- src/main.rs: `upload_reading` with `upload_reading_once`, on the client of src/grpc.rs.
pub mod Delivered
pub mod Tries
use hub_core.Base.{ℕ, zero, suc, ◌+◌, Bool, true, false, not, if◌then◌else◌, ltb}
use hub_core.Base.Int.{ℤ}
use hub_core.Base.Text.{Text}
use hub_core.Base.Result.{Result, ok, err, panic}
use hub_core.Net.Uplink.{max_attempts}
use hub_core.Grpc.{
  bump, SensorData, Server, Wire, GrpcError, HubClient, connect_with_token, send_data,
}

-- `SensorReading`.
pub record SensorReading : Type 0 where
  pub node_id : Text
  pub air_temperature_c : ℤ
  pub air_pressure_pa : ℕ
  pub air_humidity_pct : ℕ
  pub soil_temperature_c : ℤ
  pub soil_humidity_pct : ℕ
  pub timestamp_unix : ℤ

pub data UploadError : Type 0 where
  no_runtime : UploadError
  not_sent : GrpcError → UploadError

abbrev pub data_of : SensorReading → SensorData
data_of r = record {
  node_id = r.node_id;
  air_temperature = r.air_temperature_c;
  air_pressure = r.air_pressure_pa;
  air_humidity = r.air_humidity_pct;
  soil_temperature = r.soil_temperature_c;
  soil_humidity = r.soil_humidity_pct;
  timestamp = r.timestamp_unix;
}

abbrev pub not_sent_if : Result GrpcError (Unit {0}) → Result UploadError (Unit {0})
not_sent_if (ok u) = ok u
not_sent_if (err x) = err (not_sent x)
not_sent_if panic = panic

-- What the log says of a reading (sent or dropped), how many attempts were made, and how often the hub
-- slept.
pub record Upload : Type 0 where
  pub delivered : Bool
  pub attempts : ℕ
  pub slept : ℕ
  pub wire : Wire

abbrev pub went_through : Result UploadError (Unit {0}) → Bool
went_through (ok u) = true
went_through (err x) = false
went_through panic = false

module _ (e : Server) (jwt : Text) where
  unfoldable pub send_with :
      SensorReading → Result GrpcError HubClient × Wire → Result UploadError (Unit {0}) × Wire
  unfolding send_data
  send_with r (ok client, w) =
      let (sent, w') = send_data e (data_of r) client w in (not_sent_if sent, w')
  send_with r (err x, w) = (err (not_sent x), w)
  send_with r (panic, w) = (panic, w)

  unfoldable pub upload_reading_once : SensorReading → Wire → Result UploadError (Unit {0}) × Wire
  unfolding send_with connect_with_token
  upload_reading_once r w =
      if not (e.runtime_builds w.calls)
      then (err no_runtime, bump w)
      else send_with r (connect_with_token e jwt w)

  -- Attempts from `attempt` on, `left` of them.
  unfoldable pub upload_loop : SensorReading → ℕ → ℕ → Upload → Upload
  unfolding upload_reading_once
  upload_loop r zero attempt u = record u { delivered = false }
  upload_loop r (suc left) attempt u =
      let (result, w) = upload_reading_once r u.wire in
      let tried : Upload = record u { attempts = u.attempts + 1; wire = w } in
      let again =
        upload_loop r left (attempt + 1)
          (if ltb attempt max_attempts then record tried { slept = u.slept + 1 } else tried) in
      if went_through result then record tried { delivered = true } else again

  unfoldable pub upload_reading : SensorReading → Wire → Upload
  unfolding upload_loop
  upload_reading r w =
      upload_loop r max_attempts 1 (record { delivered = false; attempts = 0; slept = 0; wire = w })
