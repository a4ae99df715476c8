-- ===== src/Provisioning.antt =====
-- src/wifi_prov.rs: the credentials that a phone writes over BLE, and the list of probes that it reads.
pub mod Credentials
pub mod ProbeList
pub mod Run
pub mod Tests
