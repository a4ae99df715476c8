-- ===== src/Net.antt =====
-- The loops that try again: the uplink of a reading, the Wi-Fi connection, and the time.
pub mod Attempts
pub mod Uplink
pub mod Wifi
pub mod Sntp
pub mod Outcome
pub mod Total
pub mod Tests
