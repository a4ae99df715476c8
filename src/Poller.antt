-- ===== src/Poller.antt =====
-- src/polling.rs, `CommandPoller`: motor commands pulled from the backend, kept until their probe is
-- met, and acknowledged. A method is an action on the poller and on what the hub has done so far.
pub mod State
pub mod Actions
pub mod Polling
pub mod Dispatch
pub mod Invariant
pub mod Reachable
pub mod Acked
pub mod Reports
pub mod Delivery
pub mod Expiry
pub mod Intake
pub mod Judged
pub mod Calls
pub mod Finished
pub mod Tests
