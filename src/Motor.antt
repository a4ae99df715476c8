-- ===== src/Motor.antt =====
-- The binary frames that the hub and a probe exchange: commands to the motor, and its reports.
pub mod Command
pub mod Report
pub mod Tests
