-- ===== src/Controller/Reconciled.antt =====
-- What a reconciliation does to the engine (Reconcile of
-- internal/controller/resourceaction_controller.go).
use resource_action_operator.Prelude.{
  ◌≡◌, refl, ◌⊎◌, inl, inr, String, Bool, true, false, Result, ok, err, Check,
}
use resource_action_operator.Api.{ResourceAction}
use resource_action_operator.Std.{Std}
use resource_action_operator.Runtime.{Runtime}
use resource_action_operator.Validation.Spec.{validate_resource_action_spec}
use resource_action_operator.Validation.Spec.Accepted.{
  IsValidSpec, validate_resource_action_spec_iff,
}
use resource_action_operator.Engine.{Engine}
use resource_action_operator.Engine.Watching.{IsWellFormed, ensure_watching-IsWellFormed}
use resource_action_operator.Controller.{
  valid_condition, selected_gvk, put_spec_condition, after_validation, after_get, reconcile,
}

module _ {W : Type 0} (std : Std) (rt : Runtime W) (name namespace : String) where
  -- The engine is as it was, or a valid ResourceAction is stored under the name.
  abbrev pub KeepsOrValid : Engine → Engine → Result ResourceAction → Type 0
  KeepsOrValid e e' found =
      (e' ≡ e) ⊎ ((ra : ResourceAction) × (found ≡ ok ra) × IsValidSpec std ra.spec)

  validation_keeps :
      (ra : ResourceAction) (e : Engine) (w : W) (checked : Check)
      → validate_resource_action_spec std ra.spec ≡ checked
      → KeepsOrValid e (after_validation std rt ra checked (e, w)).1.0 (ok ra)
  validation_keeps ra e w (err x) h = inl refl
  validation_keeps ra e w (ok _) h =
      inr (ra, refl, (validate_resource_action_spec_iff std ra.spec).0 h)

  get_keeps :
      (e : Engine) (found : Result ResourceAction) (w : W)
      → KeepsOrValid e (after_get std rt e (found, w)).1.0 found
  get_keeps e (err x) w = inl refl
  get_keeps e (ok ra) w = validation_keeps ra e w (validate_resource_action_spec std ra.spec) refl

  -- A reconciliation changes the engine only if there is a stored ResourceAction of the name whose
  -- specification is valid.
  pub reconcile_keeps :
      (has_engine : Bool) (e : Engine) (w : W)
      → KeepsOrValid e
          (reconcile std rt has_engine name namespace (e, w)).1.0
          (rt.get_action name namespace w).0
  unfolding reconcile
  reconcile_keeps false e w = inl refl
  reconcile_keeps true e w =
      let (found, w') = rt.get_action name namespace w in get_keeps e found w'

  validation-IsWellFormed :
      (ra : ResourceAction) (e : Engine) (w : W) (checked : Check)
      → IsWellFormed e
      → IsWellFormed (after_validation std rt ra checked (e, w)).1.0
  validation-IsWellFormed ra e w (err x) wf = wf
  validation-IsWellFormed ra e w (ok _) wf =
      ensure_watching-IsWellFormed std rt (selected_gvk ra) e
        (put_spec_condition std rt ra.name ra.namespace valid_condition w) wf

  get-IsWellFormed :
      (e : Engine) (found : Result ResourceAction) (w : W)
      → IsWellFormed e
      → IsWellFormed (after_get std rt e (found, w)).1.0
  get-IsWellFormed e (err x) w wf = wf
  get-IsWellFormed e (ok ra) w wf =
      validation-IsWellFormed ra e w (validate_resource_action_spec std ra.spec) wf

  -- A reconciliation keeps the engine well formed.
  pub reconcile-IsWellFormed :
      (has_engine : Bool) (e : Engine) (w : W)
      → IsWellFormed e
      → IsWellFormed (reconcile std rt has_engine name namespace (e, w)).1.0
  unfolding reconcile
  reconcile-IsWellFormed false e w wf = wf
  reconcile-IsWellFormed true e w wf =
      let (found, w') = rt.get_action name namespace w in get-IsWellFormed e found w' wf
