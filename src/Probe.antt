-- ===== src/Probe.antt =====
-- src/ble.rs, what the hub learns from a probe over BLE: its advertisements, the scan that collects
-- them, and the readings of its environmental service.
pub mod Utf8
pub mod Adverts
pub mod Scan
pub mod Readings
pub mod Tests
