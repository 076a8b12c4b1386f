-- ===== src/Whitelist.antt =====
-- Which addresses may talk to the agent: src/auth/whitelist.rs.
pub mod Address
pub mod Entry
pub mod Manager
pub mod Subnet
mod Trimming
pub mod Rules
pub mod Append
pub mod Admission
pub mod Sample
mod Examples
