-- ===== src/Matching/Filters.antt =====
-- When a filter matches (matchesFilters of internal/engine/executor.go), described without its
-- early returns.
use resource_action_operator.Prelude.{
  ◌≡◌, refl, ◌≢◌, ◌↔◌, ◌⊎◌, inl, inr, String, Option, none, some, List, [], ◌∷◌, All, all_iff,
  arith, Bool, true, false, ◌&&◌, ◌==◌, eq_iff, Bool-cases, Result-cases, ok, ↔-trans,
}
use resource_action_operator.Prelude.Text.{ne_iff}
use resource_action_operator.Api.{FilterSpec, LabelChangeFilter}
use resource_action_operator.Std.{Std, Regexp, Unstructured}
use resource_action_operator.Matching.{
  MatchInput, update, create, delete, EventType, lookup, value_or_empty, label_value_matches,
  matches_label_change, has_labels, transition_matches, matches_label_changes, regex_filter,
  matches_filters,
}

-- One side of a label transition: an empty expectation wants the label absent, a star wants it
-- present, and anything else is the value that it has.
abbrev pub SideHolds : String → Option String → Type 0
SideHolds expected none = expected ≡ ""
SideHolds expected (some value) = (expected ≢ "") × ((expected ≡ "*") ⊎ (value ≡ expected))

label_value_matches_iff :
    (expected : String) (value : Option String)
    → (label_value_matches expected value ≡ true) ↔ SideHolds expected value
unfolding label_value_matches
label_value_matches_iff expected none = eq_iff expected ""
label_value_matches_iff expected (some value) = (
  (λ h. (
    (λ e. ground (arith, eq_iff expected "")),
    ground (arith, eq_iff expected "*", eq_iff value expected),
  )),
  (λ h. ground (arith, ne_iff expected "", eq_iff expected "*", eq_iff value expected)),
)

abbrev pub ChangeHolds :
    List (String × String) → List (String × String) → LabelChangeFilter → Type 0
ChangeHolds old_labels new_labels change =
    SideHolds change.from (lookup change.key old_labels)
    × SideHolds change.to (lookup change.key new_labels)

and_iff :
    {P Q : Type 0} (a b : Bool) → (a ≡ true) ↔ P → (b ≡ true) ↔ Q → ((a && b) ≡ true) ↔ (P × Q)
and_iff true b p q = ((λ h. (p.0 refl, q.0 h)), (λ h. q.1 h.1))
and_iff false b p q = ((λ h. cc), (λ h. p.1 h.0))

matches_label_change_iff :
    (old_labels new_labels : List (String × String)) (change : LabelChangeFilter)
    → (matches_label_change change old_labels new_labels ≡ true)
      ↔ ChangeHolds old_labels new_labels change
unfolding matches_label_change
matches_label_change_iff old_labels new_labels change =
    and_iff _ _ (label_value_matches_iff change.from (lookup change.key old_labels))
      (label_value_matches_iff change.to (lookup change.key new_labels))

-- The old object is there, and its labels and the new ones make every change.
abbrev pub IsTransition :
    List LabelChangeFilter → List (String × String) → Option Unstructured → Type 0
IsTransition changes new_labels none = ⊥
IsTransition changes new_labels (some old) = All (ChangeHolds old.labels new_labels) changes

-- With label changes to watch, the event is an update that brought the old object.
abbrev pub ChangesHold : List LabelChangeFilter → MatchInput → Type 0
ChangesHold [] input = Unit
ChangesHold (change ∷ changes) input =
    (input.event ≡ update) × IsTransition (change ∷ changes) input.obj.labels input.old_obj

changes_iff :
    (changes : List LabelChangeFilter) (event : EventType) (old_obj : Option Unstructured)
    (new_labels : List (String × String))
    → (transition_matches changes event old_obj new_labels ≡ true)
      ↔ ((event ≡ update) × IsTransition changes new_labels old_obj)
unfolding transition_matches
changes_iff changes create old_obj new_labels = ((λ h. cc), (λ h. cc (h.0)))
changes_iff changes delete old_obj new_labels = ((λ h. cc), (λ h. cc (h.0)))
changes_iff changes update none new_labels = ((λ h. cc), (λ h. elim (h.1) [ ]))
changes_iff changes update (some old) new_labels =
    ↔-trans (all_iff _ (matches_label_change_iff old.labels new_labels) changes)
      ((λ h. (refl, h)), (λ h. h.1))

matches_label_changes_iff :
    (changes : List LabelChangeFilter) (input : MatchInput)
    → (matches_label_changes changes input ≡ true) ↔ ChangesHold changes input
unfolding matches_label_changes
matches_label_changes_iff [] input = ((λ h. tt), (λ h. refl))
matches_label_changes_iff (change ∷ changes) input =
    changes_iff (change ∷ changes) input.event input.old_obj input.obj.labels

-- The label of the object that an entry of the filter is about.
abbrev pub value_of : MatchInput → String × String → String
value_of input entry = value_or_empty (lookup entry.0 input.obj.labels)

module _ (std : Std) where
  -- The pattern is empty, or compiles and matches the text.
  abbrev pub PatternHolds : String → String → Type 0
  PatternHolds pattern text =
      (pattern ≡ "") ⊎ ((re : Regexp) × (std.compile pattern ≡ ok re) × (re text ≡ true))

  regex_filter_iff :
      (pattern text : String) → (regex_filter std pattern text ≡ true) ↔ PatternHolds pattern text
  unfolding regex_filter
  regex_filter_iff pattern text = elim (Bool-cases (pattern == "")) [
    | inl e ↦ rw e ((λ h. inl ((eq_iff _ _).0 e)), (λ h. refl))
    | inr e ↦ elim (Result-cases (std.compile pattern)) [
      | inl (re, compiled) ↦ (
        (λ h. inr (re, compiled, rw (e, compiled) at h)),
        (λ h. elim h [
          | inl p ↦ absurd ((ne_iff _ _).0 e p)
          | inr (re', compiled', found) ↦ rw (e, compiled') found
        ]),
      )
      | inr (x, failed) ↦ (
        (λ h. cc (rw (e, failed) at h)),
        (λ h. elim h [ inl p ↦ absurd ((ne_iff _ _).0 e p) | inr (re', compiled', found) ↦ cc ]),
      )
    ]
  ]

  pub record Matches (filter : FilterSpec) (input : MatchInput) : Type 0 where
    pub name : PatternHolds filter.name_regex input.obj.name
    pub namespace : PatternHolds filter.namespace_regex input.obj.namespace
    pub labels : All (λ entry. value_of input entry ≡ entry.1) filter.labels
    pub changes : ChangesHold filter.label_changes input

  -- A filter matches an event exactly when its name and namespace patterns are empty or compile
  -- and match, each required label has its value (a missing label reads as the empty text), and, if
  -- there are label changes to watch, the event is an update whose old and new labels make each.
  pub matches_filters_iff :
      (filter : FilterSpec) (input : MatchInput)
      → (matches_filters std (some filter) input ≡ true) ↔ Matches filter input
  unfolding matches_filters has_labels
  matches_filters_iff filter input =
      ↔-trans
        (and_iff _ _
          (and_iff _ _
            (and_iff _ _ (regex_filter_iff filter.name_regex input.obj.name)
              (regex_filter_iff filter.namespace_regex input.obj.namespace))
            (all_iff _ (λ entry. eq_iff (value_of input entry) entry.1) filter.labels))
          (matches_label_changes_iff filter.label_changes input))
        (
          (λ h. record { name = h.0.0.0; namespace = h.0.0.1; labels = h.0.1; changes = h.1 }),
          (λ h. (((h.name, h.namespace), h.labels), h.changes)),
        )
