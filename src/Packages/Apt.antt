-- ===== src/Packages/Apt.antt =====
-- The package manager of Debian and Ubuntu: `AptBackend` of src/packages/mod.rs.
pub mod Locks
pub mod Safe
pub mod Operations
pub mod Trace
pub mod Guard
pub mod Outcome
