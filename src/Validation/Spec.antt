-- ===== src/Validation/Spec.antt =====
-- ValidateResourceActionSpec (api/v1alpha1/validation.go).
pub mod Accepted
use resource_action_operator.Prelude.{
  ℕ, String, Option, none, some, List, [], ◌∷◌, Bool, true, false, not, ◌&&◌, ◌||◌, ◌==◌, is_empty,
  any, Check, ok, err, ◌>>◌, ◌>>=◌, reject_if, wrap, if◌then◌else◌, selector_required,
  event_required, action_required, invalid_name_regex, invalid_namespace_regex,
  label_changes_require_update, label_change_key_required, schedule_required, schedule_invalid,
  unknown_action_type,
}
use resource_action_operator.Prelude.Text.{is_blank, equal_fold}
use resource_action_operator.Api.{ActionSpec, FilterSpec, ResourceActionSpec, LabelChangeFilter}
use resource_action_operator.Std.{Std}
use resource_action_operator.Validation.Each.{for_each}
use resource_action_operator.Validation.Http.{checked, check_regex, validate_http_action}
use resource_action_operator.Validation.Job.{validate_job_action}

unfoldable pub contains_spec_event : List String → String → Bool
contains_spec_event events expected = any (λ event. equal_fold event expected) events

-- `action.Mode == "cron" || action.Mode == "schedule"`
abbrev pub is_scheduled : ActionSpec → Bool
is_scheduled action = action.mode == "cron" || action.mode == "schedule"

-- The body of `if len(spec.Filters.LabelChanges) > 0`.
unfoldable pub check_label_changes : List String → List LabelChangeFilter → Check
check_label_changes events [] = ok tt
check_label_changes events changes = do
  reject_if (not (contains_spec_event events "Update")) label_changes_require_update
  for_each (λ i change. reject_if (is_blank change.key) (label_change_key_required i)) 0 changes

module _ (std : Std) where
  unfoldable pub check_filters : List String → Option FilterSpec → Check
  check_filters events none = ok tt
  check_filters events (some filters) = do
    check_regex std invalid_name_regex filters.name_regex
    check_regex std invalid_namespace_regex filters.namespace_regex
    check_label_changes events filters.label_changes

  unfoldable pub check_schedule : ℕ → ActionSpec → Check
  check_schedule i action =
      if is_scheduled action
      then reject_if (action.schedule == "") (schedule_required i action.mode)
        >> checked (wrap (schedule_invalid i) (std.parse_duration action.schedule))
      else ok tt

  -- The `switch` on the type of the action.
  unfoldable pub check_type : ℕ → ActionSpec → Check
  check_type i action =
      if action.type == "http"
      then validate_http_action std i action
      else if action.type == "job"
      then validate_job_action std i action
      else err (unknown_action_type i)

  unfoldable pub check_action : ℕ → ActionSpec → Check
  check_action i action = check_schedule i action >> check_type i action

  unfoldable pub validate_resource_action_spec : ResourceActionSpec → Check
  validate_resource_action_spec spec = do
    reject_if (spec.selector.version == "" || spec.selector.kind == "") selector_required
    reject_if (is_empty spec.events) event_required
    reject_if (is_empty spec.actions) action_required
    check_filters spec.events spec.filters
    for_each check_action 0 spec.actions
