-- ===== src/Http.antt =====
-- The HTTP executor (internal/engine/http_executor.go).
pub mod Backoff
pub mod Policy
pub mod Transport
pub mod Attempts
pub mod Execute
