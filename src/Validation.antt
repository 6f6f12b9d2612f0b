-- ===== src/Validation.antt =====
-- The validation of a ResourceAction (api/v1alpha1/validation.go).
pub mod Each
pub mod Http
pub mod Job
pub mod Spec
