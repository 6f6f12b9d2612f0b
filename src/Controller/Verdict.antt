-- ===== src/Controller/Verdict.antt =====
-- The verdict on the specification of a stored ResourceAction, and what follows from it (Reconcile and
-- setSpecCondition of internal/controller/resourceaction_controller.go).
use resource_action_operator.Prelude.{
  ◌≡◌, refl, ap, subst, sym, String, none, true, List, ok, err, Check,
}
use resource_action_operator.Prelude.Int.{pos}
use resource_action_operator.Api.{ResourceAction, Condition}
use resource_action_operator.Std.{Std}
use resource_action_operator.Runtime.{Runtime}
use resource_action_operator.Validation.Spec.{validate_resource_action_spec}
use resource_action_operator.Engine.{Engine}
use resource_action_operator.Engine.Ensured.{Ensures, ensure_watching-Ensures}
use resource_action_operator.Controller.{
  set_spec_condition_once, put_spec_condition, after_validation, after_get, reconcile,
}
use resource_action_operator.Writes.{IsServer}
use resource_action_operator.Writes.Conditioned.{IsPut, retry_condition-IsPut}

-- The condition for an outcome of the validation.
abbrev pub verdict : Std → Check → Condition
verdict std (ok _) = record {
  type = "SpecValid";
  status = "True";
  observed_generation = pos 0;
  last_transition_time = none;
  reason = "ValidationPassed";
  message = "Spec validation passed";
}
verdict std (err x) = record {
  type = "SpecValid";
  status = "False";
  observed_generation = pos 0;
  last_transition_time = none;
  reason = "ValidationFailed";
  message = std.error_text x;
}

module _ {W : Type 0} (std : Std) (rt : Runtime W) where
  -- The update of the condition, in the world that the Get of the reconciliation leaves.
  abbrev pub update : ResourceAction → Condition → W → Check × (Condition × W)
  update ra cond w =
      rt.retry_condition (set_spec_condition_once std rt ra.name ra.namespace) (cond, w)

  -- What a reconciliation does behind the update: the kind that a valid specification selects is
  -- watched, and its result is that of the watching; for an invalid one there is no error, and the
  -- engine is as it was.
  abbrev pub Follows : ResourceAction → Check → Engine → W → Check × (Engine × W) → Type 0
  Follows ra (ok _) e w p =
      Ensures
        (record {
          group = ra.spec.selector.group;
          version = ra.spec.selector.version;
          kind = ra.spec.selector.kind;
        })
        std rt e w p
  Follows ra (err x) e w p = p ≡ (ok tt, (e, w))

  after_validation-Follows :
      (ra : ResourceAction) (checked : Check) (e : Engine) (w : W)
      → Follows ra checked e
          (update ra (verdict std checked) w).1.1
          (after_validation std rt ra checked (e, w))
  unfolding put_spec_condition
  after_validation-Follows ra (err x) e w = refl
  after_validation-Follows ra (ok _) e w = ensure_watching-Ensures _ std rt e _

  module _ (stored : W → List ResourceAction) (Was : W → ResourceAction → Type 0)
      (server : IsServer rt stored Was) where
    -- A reconciliation that reads a ResourceAction, and whose update of the status succeeds, puts the
    -- verdict of the validation into the version that is stored then, SpecValid with the status True
    -- or False, unless the ResourceAction is not found any more. A valid one has the kind that it
    -- selects watched, with the result of that; for an invalid one there is no error, and the engine
    -- is as it was.
    pub reconcile-verdict :
        (name namespace : String) (ra : ResourceAction) (e : Engine) (w w' : W)
        → rt.get_action name namespace w ≡ (ok ra, w')
        → (update ra (verdict std (validate_resource_action_spec std ra.spec)) w').0 ≡ ok tt
        → let checked = validate_resource_action_spec std ra.spec in
          let updated = update ra (verdict std checked) w' in
          IsPut std rt stored Was server ra.name ra.namespace (verdict std checked) updated
          × Follows ra checked e updated.1.1 (reconcile std rt true name namespace (e, w))
    unfolding reconcile
    reconcile-verdict name namespace ra e w w' read h =
        let checked = validate_resource_action_spec std ra.spec in
        (
          retry_condition-IsPut std rt stored Was server (verdict std checked) ra.name ra.namespace
              w' h,
          subst (Follows ra checked e (update ra (verdict std checked) w').1.1)
              (sym (ap (after_get std rt e) read)) (after_validation-Follows ra checked e w'),
        )
