-- ===== src/Jobs.antt =====
-- The jobs of the agent: src/jobs. The scheduler stands in a module of its own.
pub mod Status
pub mod Job
pub mod Order
pub mod History
mod Examples
