-- ===== src/Scheduler.antt =====
-- The scheduler: src/jobs/scheduler.rs.
pub mod State
pub mod Admission
pub mod SelfUpdate
pub mod Reboot
pub mod Dispatch
pub mod Lifecycle
pub mod Recovery
pub mod System
pub mod Reservations
pub mod Restart
mod Examples
