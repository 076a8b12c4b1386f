-- ===== src/Auth.antt =====
-- Who may talk to the agent: src/auth.
pub mod Crl
pub mod Mtls
pub mod Refresh
pub mod Trust
pub mod Enforcement
mod Schedule
mod Expiry
mod Examples
