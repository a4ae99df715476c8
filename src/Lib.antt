-- ===== src/Lib.antt =====
-- hub-core, the firmware of a garden hub: it pulls motor commands from a backend, hands each to its
-- probe over BLE, reports what came of it, and uploads the readings of the probes. This library models
-- the parts that decide; each file names the source file and the functions that it is about.
--
-- Parts, and where they are:
--   src/polling.rs, CommandPoller -> Poller (State, Actions, Polling, Dispatch): a method is a function
--     from the hub's state to a value and the next state. The state has the poller's three fields, how
--     often the clock was read and a remote call was made, and the acknowledgements that were tried.
--   src/polling.rs, CommandDedupSet -> Dedup: the ids in progress and the ids that were finished.
--   src/polling.rs (expand_command_id, hex_digit), src/ble.rs (command_id_label, nibble_to_hex,
--     parse_uuid_compact_bytes) -> Uuid.
--   src/ble.rs (build_motor_command_payload) -> Motor/Command, and (ProbeMotorResult,
--     parse_motor_result_payload) -> Motor/Report.
--   src/ble.rs (parse_probe_meta, parse_probe_meta_from_name, matching_marker) -> Probe/Adverts,
--     (scan_probe_candidates) -> Probe/Scan, (read_probe_from_service and the parsers of its values)
--     -> Probe/Readings.
--   src/wifi_prov.rs (PendingWifiCredentials, next_pending_credentials_state, the write handlers of
--     run) -> Provisioning/Credentials, (encode_setup_probes) -> Provisioning/ProbeList, and (run) ->
--     Provisioning/Run, which calls Net/Wifi, Storage, Claim, Ble/Setup and Grpc.
--   src/ble.rs (read_probe_and_maybe_dispatch_motor, write_motor_payload_to_service,
--     read_motor_result_from_service) -> Ble (Link, Dispatch, Visit), which calls Probe/Readings and
--     Motor; (acknowledge_setup_probe, read_setup_probe_identity, discover_setup_probes) -> Ble/Setup.
--   src/wifi.rs (connect_with_attempts) -> Net/Wifi, src/time.rs (get_sync_sntp) -> Net/Sntp, and
--     src/main.rs (upload_reading) -> Net/Uplink.
--   src/nvs_store.rs (load, save) -> Storage/WifiStore, src/persist.rs -> Storage/Identity, and read_str
--     of both and clear of the first -> Storage/Nvs, which gives the interface Storage/Flash.
--   src/auth.rs (claim_hub_token) and src/main.rs (provision_hub, claim_hub_after_time_sync) -> Claim,
--     over Storage/Identity and Net/Sntp.
--   src/grpc.rs (HubClient) -> Grpc; src/polling.rs (pull_commands_once, ack_once) -> Grpc/Motor;
--     src/wifi_prov.rs (acknowledge_setup_probes_in_database) -> Grpc/SetupAcks, and src/main.rs
--     (upload_reading_once, upload_reading) -> Grpc/Uplink.
--   build.rs -> Build.
--   src/main.rs: what the loop of main does with a session -> MainLoop, the loop -> MainLoop/Cycle, and
--     what comes before it -> MainLoop/Start. These call all the other parts.
--   src/config.rs: each constant stands in the file that uses it.
--   Base: numbers, lists, texts, maps and results that the parts share.
--
-- Conventions. A String and a &[u8] are lists of bytes, a machine integer is a native natural number or
-- an ℤ with its wrap-around written out, an f64 that the code divides by 100.0 is the integer before
-- the division. A HashSet and a HashMap are functions of the key. anyhow::Result is `Result`, whose
-- third value `panic` is an index or a slice out of range. Log lines are left out.
--
-- Outside the model, as parameters: the clock, the two RPCs of the poller and the connection that they
-- need (Poller.State.Outside, which Grpc/Motor/Refines fills from the model of the client), the enum
-- of the generated protocol, the adverts that the BLE stack delivers (Probe.Scan), the characteristics
-- of a probe (Probe.Readings.Service), how each call on a probe goes (Ble.Link.Device), the Wi-Fi
-- driver (Net.Wifi.Driver), and the flash store, with the laws that are relied on (Storage.Flash,
-- Storage.Nvs), the service that claims hubs (Claim.AuthService), the calls of tonic and the answers
-- of the backend (Grpc.Server), the random bytes and the file of a build (Build.Machine). What the hub
-- meets in one turn of its loop, in one round of the provisioning and from one power-on on are records
-- (Air, Tick, Power), and a run takes a list of them.
--
-- Fuel: `decimal` writes at most 20 digits, the number of a 64-bit integer, and the UTF-8 functions of
-- Probe/Utf8 have a step for each byte, each of which takes at least one. All else is structural.
--
-- The loops of attempts recurse on the number that is left.
--
-- Not modelled: the codec of src/grpc.rs (it hands buffer sizes to tonic), the heap log, the mutex over
-- the radio (one thread takes and releases it within each call), the lines that build.rs prints, the
-- synthetic reading of the feature `fake-probe`, and wifi::init.
pub mod Base
pub mod Uuid
pub mod Motor
pub mod Dedup
pub mod Poller
pub mod Probe
pub mod Provisioning
pub mod Ble
pub mod Net
pub mod Storage
pub mod Claim
pub mod Grpc
pub mod Build
pub mod MainLoop
