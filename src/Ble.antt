-- ===== src/Ble.antt =====
-- src/ble.rs, a connection to one probe: read its values, write it a motor command, take its report; and
-- the pickup of a probe in setup mode.
pub mod Link
pub mod Dispatch
pub mod Visit
pub mod Setup
pub mod Closed
pub mod Total
pub mod Confirmed
pub mod Written
pub mod Safe
pub mod NoExpiry
pub mod Tests
