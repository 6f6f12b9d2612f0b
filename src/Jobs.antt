-- ===== src/Jobs.antt =====
-- The job executor (internal/engine/job_executor.go).
pub mod Command
pub mod Build
pub mod Execute
pub mod Track
pub mod Logs
