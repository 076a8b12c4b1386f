-- ===== src/Packages.antt =====
-- The package managers: src/packages.
pub mod Error
pub mod Runner
pub mod Apt
pub mod Request
pub mod Backends
pub mod Splitting
pub mod Listing
pub mod Cache
pub mod Details
pub mod Services
mod Examples
