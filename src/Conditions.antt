-- ===== src/Conditions.antt =====
-- The conditions of a status: setCondition (internal/engine/executor.go) and the loop of
-- setSpecCondition (internal/controller/resourceaction_controller.go).
pub mod Upsert
use resource_action_operator.Prelude.{
  ℕ, String, Option, none, some, List, [], ◌∷◌, ◌==◌, if◌then◌else◌, not,
}
use resource_action_operator.Api.{Condition, ResourceAction, ResourceActionStatus}

-- `if cond.LastTransitionTime.IsZero() { cond.LastTransitionTime = now }`
abbrev pub time_or : ℕ → Option ℕ → Option ℕ
time_or now none = some now
time_or now (some t) = some t

-- The loop of setCondition, and the append behind it: the time is that of the existing condition,
-- or `now` where the status changes.
unfoldable pub replace_or_append : ℕ → Condition → List Condition → List Condition
replace_or_append now cond [] = cond ∷ []
replace_or_append now cond (existing ∷ rest) =
    if existing.type == cond.type
    then record cond {
      last_transition_time =
          if not (existing.status == cond.status) then some now else existing.last_transition_time;
    }
      ∷ rest
    else existing ∷ replace_or_append now cond rest

unfoldable pub set_condition : ℕ → ResourceAction → Condition → ResourceAction
unfolding replace_or_append
set_condition now ra cond =
    let cond' = record cond {
      observed_generation = ra.generation;
      last_transition_time = time_or now cond.last_transition_time;
    } in
    record ra {
      status = record ra.status { conditions = replace_or_append now cond' ra.status.conditions };
    }

-- The loop of setSpecCondition: an existing condition lends its time where the status is the same.
unfoldable pub replace_or_append_spec : Condition → List Condition → List Condition
replace_or_append_spec cond [] = cond ∷ []
replace_or_append_spec cond (existing ∷ rest) =
    if existing.type == cond.type
    then record cond {
      last_transition_time =
          if existing.status == cond.status
          then existing.last_transition_time
          else cond.last_transition_time;
    }
      ∷ rest
    else existing ∷ replace_or_append_spec cond rest

-- One call of the closure of setSpecCondition, between its Get and its Update. The condition is a
-- variable that the closure captures and assigns, so it comes back for the next call.
unfoldable pub set_spec_condition : ℕ → Condition → ResourceAction → ResourceAction
unfolding replace_or_append_spec
set_spec_condition now cond latest =
    let cond' = record cond {
      observed_generation = latest.generation;
      last_transition_time = time_or now cond.last_transition_time;
    } in
    record latest {
      status = record latest.status {
        conditions = replace_or_append_spec cond' latest.status.conditions;
      };
    }

-- The condition of a type: the first one.
unfoldable pub find_condition : String → List Condition → Option Condition
find_condition type [] = none
find_condition type (c ∷ cs) = if c.type == type then some c else find_condition type cs
