-- ===== src/Controller.antt =====
-- The controller (internal/controller/resourceaction_controller.go).
pub mod Reconciled
pub mod Verdict
use resource_action_operator.Prelude.{
  ℕ, String, Option, none, some, List, [], ◌∷◌, Bool, true, false, ◌==◌, Result, ok, err, Check,
  Error, if◌then◌else◌, engine_not_configured,
}
use resource_action_operator.Prelude.Int.{pos}
use resource_action_operator.Api.{ResourceAction, Condition}
use resource_action_operator.Std.{Std}
use resource_action_operator.Runtime.{Runtime}
use resource_action_operator.Matching.{GroupVersionKind}
use resource_action_operator.Conditions.{time_or, set_spec_condition}
use resource_action_operator.Validation.Spec.{validate_resource_action_spec}
use resource_action_operator.Engine.{Engine, ensure_watching}

-- The condition that the closure of setSpecCondition holds once its loop is done.
unfoldable pub lend_time : Condition → List Condition → Condition
lend_time cond [] = cond
lend_time cond (existing ∷ rest) =
    if existing.type == cond.type
    then record cond {
      last_transition_time =
          if existing.status == cond.status
          then existing.last_transition_time
          else cond.last_transition_time;
    }
    else lend_time cond rest

unfoldable pub captured_condition : ℕ → Condition → ResourceAction → Condition
unfolding lend_time
captured_condition now cond latest =
    lend_time
      (record cond {
        observed_generation = latest.generation;
        last_transition_time = time_or now cond.last_transition_time;
      })
      latest.status.conditions

abbrev pub invalid_condition : String → Condition
invalid_condition text = record {
  type = "SpecValid";
  status = "False";
  observed_generation = pos 0;
  last_transition_time = none;
  reason = "ValidationFailed";
  message = text;
}

abbrev pub valid_condition : Condition
valid_condition = record {
  type = "SpecValid";
  status = "True";
  observed_generation = pos 0;
  last_transition_time = none;
  reason = "ValidationPassed";
  message = "Spec validation passed";
}

abbrev pub selected_gvk : ResourceAction → GroupVersionKind
selected_gvk ra = record {
  group = ra.spec.selector.group;
  version = ra.spec.selector.version;
  kind = ra.spec.selector.kind;
}

module _ {W : Type 0} (std : Std) (rt : Runtime W) where
  -- client.IgnoreNotFound
  abbrev pub ignore_not_found : Error → Check
  ignore_not_found e = if std.is_not_found e then ok tt else err e

  abbrev pub update_latest : Condition → Result ResourceAction × W → Check × (Condition × W)
  update_latest cond (err e, w) = (ignore_not_found e, (cond, w))
  update_latest cond (ok latest, w) =
      let (now, w') = rt.clock w in
      let (updated, w'') = rt.update_status (set_spec_condition now cond latest) w' in
      (updated, (captured_condition now cond latest, w''))

  -- One call of the closure.
  unfoldable pub set_spec_condition_once : String → String → Condition × W → Check × (Condition × W)
  unfolding set_spec_condition captured_condition
  set_spec_condition_once name namespace (cond, w) =
      update_latest cond (rt.get_action name namespace w)

  -- setSpecCondition; Reconcile uses its error for a log message at most.
  unfoldable pub put_spec_condition : String → String → Condition → W → W
  unfolding set_spec_condition_once
  put_spec_condition name namespace cond w =
      (rt.retry_condition (set_spec_condition_once name namespace) (cond, w)).1.1

  abbrev pub after_validation : ResourceAction → Check → Engine × W → Check × (Engine × W)
  after_validation ra (err x) (e, w) =
      (ok tt, (e, put_spec_condition ra.name ra.namespace (invalid_condition (std.error_text x)) w))
  after_validation ra (ok _) (e, w) =
      ensure_watching std rt (selected_gvk ra)
        (e, put_spec_condition ra.name ra.namespace valid_condition w)

  abbrev pub after_get : Engine → Result ResourceAction × W → Check × (Engine × W)
  after_get e (err x, w) = (ignore_not_found x, (e, w))
  after_get e (ok ra, w) = after_validation ra (validate_resource_action_spec std ra.spec) (e, w)

  -- Reconcile of a name and a namespace.
  unfoldable pub reconcile : Bool → String → String → Engine × W → Check × (Engine × W)
  unfolding put_spec_condition ensure_watching validate_resource_action_spec
  reconcile has_engine name namespace (e, w) =
      if has_engine
      then after_get e (rt.get_action name namespace w)
      else (err engine_not_configured, (e, w))
