-- ===== src/Packages/Error.antt =====
-- Errors of commands: src/packages/error_utils.rs.
pub mod Quoting
pub mod Words
pub mod Report
pub mod Classify
pub mod LogLines
