-- ===== src/Webhook.antt =====
-- The admission webhook (api/v1alpha1/resourceaction_webhook.go).
use resource_action_operator.Prelude.{
  ◌≡◌, ◌↔◌, ↔-trans, wrap_iff, Check, ok, err, wrap, not_a_resource_action, invalid_resource_action,
}
use resource_action_operator.Api.{ResourceAction}
use resource_action_operator.Std.{Std}
use resource_action_operator.Validation.Spec.{validate_resource_action_spec}
use resource_action_operator.Validation.Spec.Accepted.{
  IsValidSpec, validate_resource_action_spec_iff,
}

-- A runtime.Object: of what type it is.
pub data Object : Type 0 where
  resource_action : ResourceAction → Object
  other_object : Object

module _ (std : Std) where
  unfoldable pub validate_resource_action_object : ResourceAction → Check
  unfolding validate_resource_action_spec
  validate_resource_action_object ra =
      wrap (invalid_resource_action ra.name) (validate_resource_action_spec std ra.spec)

  unfoldable pub validate_create : Object → Check
  unfolding validate_resource_action_object
  validate_create (resource_action ra) = validate_resource_action_object ra
  validate_create other_object = err not_a_resource_action

  unfoldable pub validate_update : Object → Object → Check
  unfolding validate_resource_action_object
  validate_update old (resource_action ra) = validate_resource_action_object ra
  validate_update old other_object = err not_a_resource_action

  abbrev pub validate_delete : Object → Check
  validate_delete obj = ok tt

  -- A ResourceAction with a valid specification.
  abbrev pub IsAdmissible : Object → Type 0
  IsAdmissible (resource_action ra) = IsValidSpec std ra.spec
  IsAdmissible other_object = ⊥

  admissible_iff :
      (ra : ResourceAction) → (validate_resource_action_object ra ≡ ok tt) ↔ IsValidSpec std ra.spec
  unfolding validate_resource_action_object
  admissible_iff ra =
      ↔-trans
        (wrap_iff (invalid_resource_action ra.name) (validate_resource_action_spec std ra.spec))
        (validate_resource_action_spec_iff std ra.spec)

  -- The webhook admits the creation of an object, and any update to it, exactly when the object is a
  -- ResourceAction with a valid specification; the old object does not matter.
  pub admits_iff :
      (old obj : Object)
      → ((validate_create obj ≡ ok tt) ↔ IsAdmissible obj)
        × ((validate_update old obj ≡ ok tt) ↔ IsAdmissible obj)
  unfolding validate_create validate_update
  admits_iff old (resource_action ra) = (admissible_iff ra, admissible_iff ra)
  admits_iff old other_object = (((λ h. cc), (λ h. elim h [ ])), ((λ h. cc), (λ h. elim h [ ])))
