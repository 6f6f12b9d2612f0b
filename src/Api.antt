-- ===== src/Api.antt =====
-- The resource types of api/v1alpha1/resourceaction_types.go: the specification of a
-- ResourceAction, and its status. A pointer is an `Option`, a map an association list.
mod Spec
mod Job
mod Status
pub use Spec.*
pub use Job.*
pub use Status.*
