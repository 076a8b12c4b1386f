-- ===== src/Api.antt =====
-- The HTTP interface: patches.rs, packages.rs and jobs.rs in src/api/handlers, and src/api/rate_limit.rs.
pub mod Jobs
pub mod Packages
pub mod Patches
pub mod RateLimit
mod Examples
