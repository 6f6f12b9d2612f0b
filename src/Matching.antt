-- ===== src/Matching.antt =====
-- Which ResourceActions an event concerns (internal/engine/executor.go, and the types of
-- internal/engine/engine.go).
pub mod Filters
pub mod Labels
use resource_action_operator.Prelude.{
  String, Option, none, some, List, [], ◌∷◌, Bool, true, false, not, ◌&&◌, ◌||◌, ◌==◌, any, all,
  is_empty, Result, ok, err, if◌then◌else◌,
}
use resource_action_operator.Prelude.Text.{equal_fold}
use resource_action_operator.Api.{
  ResourceSelector, FilterSpec, LabelChangeFilter, ExecutionRecord, ResourceAction,
}
use resource_action_operator.Std.{Std, Unstructured}

pub data EventType : Type 0 where
  create update delete : EventType

-- `string(event)`
unfoldable pub event_text : EventType → String
event_text create = "Create"
event_text update = "Update"
event_text delete = "Delete"

pub record GroupVersionKind : Type 0 where
  pub group : String
  pub version : String
  pub kind : String

-- `old_obj` is nil for all but updates. A nil `Obj` is an outcome of the handlers that build the
-- input, not a value of this record.
pub record MatchInput : Type 0 where
  pub event : EventType
  pub gvk : GroupVersionKind
  pub obj : Unstructured
  pub old_obj : Option Unstructured

-- `m[k]` with its second result: the first entry of the key.
unfoldable pub lookup : String → List (String × String) → Option String
lookup k [] = none
lookup k ((j, v) ∷ m) = if j == k then some v else lookup k m

-- `m[k]`, the empty text where the key is missing.
abbrev pub value_or_empty : Option String → String
value_or_empty none = ""
value_or_empty (some v) = v

unfoldable pub matches_selector : ResourceSelector → GroupVersionKind → Bool
matches_selector sel gvk =
    sel.group == gvk.group && sel.version == gvk.version && sel.kind == gvk.kind

unfoldable pub contains_event : List String → String → Bool
contains_event events ev = any (λ e. equal_fold e ev) events

-- `exists` and `value` are the two results of the lookup.
unfoldable pub label_value_matches : String → Option String → Bool
label_value_matches expected none = expected == ""
label_value_matches expected (some value) =
    if expected == "" then false else if expected == "*" then true else value == expected

unfoldable pub matches_label_change :
    LabelChangeFilter → List (String × String) → List (String × String) → Bool
unfolding label_value_matches lookup
matches_label_change change old_labels new_labels =
    label_value_matches change.from (lookup change.key old_labels)
    && label_value_matches change.to (lookup change.key new_labels)

-- The loop over `filter.Labels`.
unfoldable pub has_labels : List (String × String) → List (String × String) → Bool
unfolding lookup
has_labels required labels =
    all (λ entry. value_or_empty (lookup entry.0 labels) == entry.1) required

-- The part of the filter on label changes: only an update with its old object can match.
unfoldable pub transition_matches :
    List LabelChangeFilter → EventType → Option Unstructured → List (String × String) → Bool
unfolding matches_label_change
transition_matches changes update (some old) new_labels =
    all (λ c. matches_label_change c old.labels new_labels) changes
transition_matches changes update none new_labels = false
transition_matches changes create old_obj new_labels = false
transition_matches changes delete old_obj new_labels = false

unfoldable pub matches_label_changes : List LabelChangeFilter → MatchInput → Bool
unfolding transition_matches
matches_label_changes [] input = true
matches_label_changes changes input =
    transition_matches changes input.event input.old_obj input.obj.labels

-- `pattern != ""`, then `regexp.Compile` and `MatchString`; a pattern that does not compile
-- matches nothing.
unfoldable pub regex_filter : Std → String → String → Bool
regex_filter std pattern text =
    if pattern == "" then true else elim (std.compile pattern) [ ok re ↦ re text | err e ↦ false ]

unfoldable pub matches_filters : Std → Option FilterSpec → MatchInput → Bool
unfolding regex_filter has_labels matches_label_changes
matches_filters std none input = true
matches_filters std (some filter) input =
    regex_filter std filter.name_regex input.obj.name
    && regex_filter std filter.namespace_regex input.obj.namespace
    && has_labels filter.labels input.obj.labels
    && matches_label_changes filter.label_changes input

unfoldable pub already_executed : List ExecutionRecord → String → String → Bool
already_executed executions uid event =
    any (λ exec. exec.resource_uid == uid && exec.event == event) executions

-- The three tests that the executor and the cron engine share.
unfoldable pub concerns : Std → ResourceAction → MatchInput → Bool
unfolding matches_selector contains_event matches_filters event_text
concerns std ra input =
    matches_selector ra.spec.selector input.gvk
    && contains_event ra.spec.events (event_text input.event)
    && matches_filters std ra.spec.filters input
