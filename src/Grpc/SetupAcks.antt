-- ===== src/Grpc/SetupAcks.antt =====
-- src/wifi_prov.rs, `acknowledge_setup_probes_in_database`: one reading of dummy values for each probe.
pub mod Sent
use hub_core.Base.{
  ℕ, zero, suc, ◌+◌, Bool, true, false, not, List, [], ◌∷◌, Option, length, if◌then◌else◌, ltb,
}
use hub_core.Base.Int.{pos}
use hub_core.Base.Text.{Text}
use hub_core.Base.Result.{Result, ok, err, panic}
use hub_core.Probe.Readings.{get_unix_now_ms}
use hub_core.Provisioning.ProbeList.{SetupProbe}
use hub_core.Grpc.{
  bump, SensorData, Server, Wire, GrpcError, HubClient, connect_with_token, send_data,
}

pub data AckError : Type 0 where
  no_runtime : AckError
  no_client : GrpcError → AckError
  -- So many of so many failed.
  failed_acks : ℕ → ℕ → AckError

-- The DUMMY constants, in the units of the readings.
abbrev pub dummy_data : SetupProbe → Option ℕ → SensorData
dummy_data probe clock = record {
  node_id = probe.probe_uuid;
  air_temperature = pos 2000;
  air_pressure = 101325;
  air_humidity = 5000;
  soil_temperature = pos 1800;
  soil_humidity = 3500;
  timestamp = get_unix_now_ms clock;
}

abbrev pub failures : Result GrpcError (Unit {0}) → ℕ
failures (ok u) = 0
failures (err e) = 1
failures panic = 0

module _ (e : Server) where
  -- The loop, from `failed_acknowledgements` on.
  unfoldable pub ack_loop : HubClient → List SetupProbe → ℕ → Wire → ℕ × Wire
  unfolding send_data
  ack_loop client [] failed w = (failed, w)
  ack_loop client (probe ∷ probes) failed w =
      let (r, w') = send_data e (dummy_data probe (e.clock w.calls)) client w in
      ack_loop client probes (failed + failures r) w'

  abbrev pub outcome : ℕ → ℕ → Result AckError (Unit {0})
  outcome failed total = if ltb 0 failed then err (failed_acks failed total) else ok tt

  unfoldable pub ack_with :
      List SetupProbe → Result GrpcError HubClient × Wire → Result AckError (Unit {0}) × Wire
  unfolding ack_loop
  ack_with probes (ok client, w) =
      let (failed, w') = ack_loop client probes 0 w in (outcome failed (length probes), w')
  ack_with probes (err x, w) = (err (no_client x), w)
  ack_with probes (panic, w) = (panic, w)

  unfoldable pub acknowledge_setup_probes_in_database :
      Text → List SetupProbe → Wire → Result AckError (Unit {0}) × Wire
  unfolding ack_with connect_with_token
  acknowledge_setup_probes_in_database jwt [] w = (ok tt, w)
  acknowledge_setup_probes_in_database jwt (probe ∷ probes) w =
      if not (e.runtime_builds w.calls)
      then (err no_runtime, bump w)
      else ack_with (probe ∷ probes) (connect_with_token e jwt w)
