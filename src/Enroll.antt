-- ===== src/Enroll.antt =====
-- Enrolment at a manager: src/enroll/client.rs.
pub mod Answers
pub mod Client
pub mod Disk
pub mod Health
pub mod Identity
pub mod Polling
pub mod Provision
pub mod Release
pub mod Run
mod Examples
