-- ===== src/Executor.antt =====
-- K8sExecutor (internal/engine/executor.go): an event runs the actions of the ResourceActions that
-- it concerns, and what was run is recorded in their status.
pub mod Actions
pub mod Status
pub mod Event
pub mod Run
