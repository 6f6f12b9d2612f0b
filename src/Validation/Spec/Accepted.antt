-- ===== src/Validation/Spec/Accepted.antt =====
-- The specifications that ValidateResourceActionSpec (api/v1alpha1/validation.go) accepts,
-- described without its order of checks.
use resource_action_operator.Prelude.{
  ℕ, ◌≡◌, refl, sym, ◌∙◌, ◌≢◌, ◌↔◌, ◌⊎◌, inl, inr, String, Option, none, some, List, [], ◌∷◌, All,
  arith, ok, >>_iff, ↔-trans, reject_if_iff, true, false, not, ◌||◌, ◌==◌, eq_iff, is_empty,
  Bool-cases, label_change_key_required,
}
use resource_action_operator.Prelude.Text.{is_blank, ne_iff}
use resource_action_operator.Api.{ActionSpec, FilterSpec, ResourceActionSpec, LabelChangeFilter}
use resource_action_operator.Std.{Std}
use resource_action_operator.Validation.Each.{for_each_iff}
use resource_action_operator.Validation.Http.Accepted.{
  Compiles, IsValidHttp, check_regex_iff, checked-wrap_iff, validate_http_action_iff,
}
use resource_action_operator.Validation.Job.Accepted.{Parses, HasValidJob, validate_job_action_iff}
use resource_action_operator.Validation.Spec.{
  contains_spec_event, is_scheduled, check_label_changes, check_filters, check_schedule, check_type,
  check_action, validate_resource_action_spec,
}

http_not_job : ◌≢◌ {A = String} "http" "job"
http_not_job = ground (arith, eq_iff "http" "job")

selected :
    (spec : ResourceActionSpec)
    → spec.selector.version ≢ ""
    → spec.selector.kind ≢ ""
    → (spec.selector.version == "" || spec.selector.kind == "") ≡ false
selected spec v k = rw ((ne_iff spec.selector.version "").1 v) ((ne_iff spec.selector.kind "").1 k)

-- Label changes are watched for only on updates, and each has a key.
abbrev pub ValidChanges : List String → List LabelChangeFilter → Type 0
ValidChanges events [] = Unit
ValidChanges events (change ∷ changes) =
    (contains_spec_event events "Update" ≡ true)
    × All (λ c. is_blank c.key ≡ false) (change ∷ changes)

check_label_changes_iff :
    (events : List String) (changes : List LabelChangeFilter)
    → (check_label_changes events changes ≡ ok tt) ↔ ValidChanges events changes
unfolding check_label_changes
check_label_changes_iff events [] = ((λ h. tt), (λ h. refl))
check_label_changes_iff events (change ∷ changes) =
    ↔-trans
      (>>_iff _ _ (reject_if_iff (not (contains_spec_event events "Update")) _) (
        for_each_iff _ (λ i c. reject_if_iff (is_blank c.key) (label_change_key_required i)) 0
          (change ∷ changes)))
      ((λ h. (ground arith, h.1)), (λ h. (ground arith, h.1)))

module _ (std : Std) where
  abbrev pub ValidFilters : List String → Option FilterSpec → Type 0
  ValidFilters events none = Unit
  ValidFilters events (some filters) =
      ((filters.name_regex ≡ "") ⊎ Compiles std filters.name_regex)
      × (((filters.namespace_regex ≡ "") ⊎ Compiles std filters.namespace_regex)
          × ValidChanges events filters.label_changes)

  check_filters_iff :
      (events : List String) (filters : Option FilterSpec)
      → (check_filters std events filters ≡ ok tt) ↔ ValidFilters events filters
  unfolding check_filters
  check_filters_iff events none = ((λ h. tt), (λ h. refl))
  check_filters_iff events (some filters) = >>_iff _ _ (check_regex_iff std _ filters.name_regex) (
      >>_iff _ _ (check_regex_iff std _ filters.namespace_regex)
        (check_label_changes_iff events filters.label_changes))

  -- A cron action has a schedule, and it is a duration.
  abbrev pub ValidSchedule : ActionSpec → Type 0
  ValidSchedule action =
      (is_scheduled action ≡ false) ⊎ ((action.schedule ≢ "") × Parses std action.schedule)

  check_schedule_iff :
      (i : ℕ) (action : ActionSpec) → (check_schedule std i action ≡ ok tt) ↔ ValidSchedule action
  unfolding check_schedule
  check_schedule_iff i action = elim (Bool-cases (is_scheduled action)) [
    | inl e ↦ rw e (
        ↔-trans
          (>>_iff _ _ (reject_if_iff (action.schedule == "") _)
            (checked-wrap_iff _ (std.parse_duration action.schedule)))
          (
            (λ h. inr ((ne_iff _ _).0 h.0, h.1)),
            (λ h. elim h [ inl p ↦ cc | inr q ↦ ((ne_iff _ _).1 q.0, q.1) ]),
          ))
    | inr e ↦ ((λ h. inl e), (λ h. rw e))
  ]

  abbrev pub ValidType : ActionSpec → Type 0
  ValidType action =
      ((action.type ≡ "http") × IsValidHttp std action)
      ⊎ ((action.type ≡ "job") × HasValidJob std action.url action.job)

  check_type_iff :
      (i : ℕ) (action : ActionSpec) → (check_type std i action ≡ ok tt) ↔ ValidType action
  unfolding check_type
  check_type_iff i action = elim (Bool-cases (action.type == "http")) [
    | inl http ↦ ↔-trans (rw http (validate_http_action_iff std i action)) (
      (λ h. inl ((eq_iff _ _).0 http, h)),
      (λ h. elim h [
        | inl p ↦ p.1
        | inr q ↦ absurd (http_not_job ((sym ((eq_iff _ _).0 http)) ∙ q.0))
      ]),
    )
    | inr other ↦ elim (Bool-cases (action.type == "job")) [
      | inl job ↦ ↔-trans (rw (other, job) (validate_job_action_iff std i action)) (
        (λ h. inr ((eq_iff _ _).0 job, h)),
        (λ h. elim h [ inl p ↦ absurd ((ne_iff _ _).0 other p.0) | inr q ↦ q.1 ]),
      )
      | inr neither ↦ (
        (λ h. cc (rw (other, neither) at h)),
        (λ h. elim h [
          | inl p ↦ absurd ((ne_iff _ _).0 other p.0)
          | inr q ↦ absurd ((ne_iff _ _).0 neither q.0)
        ]),
      )
    ]
  ]

  abbrev pub ValidAction : ActionSpec → Type 0
  ValidAction action = ValidSchedule action × ValidType action

  check_action_iff :
      (i : ℕ) (action : ActionSpec) → (check_action std i action ≡ ok tt) ↔ ValidAction action
  unfolding check_action
  check_action_iff i action = >>_iff _ _ (check_schedule_iff i action) (check_type_iff i action)

  pub record IsValidSpec (spec : ResourceActionSpec) : Type 0 where
    pub version : spec.selector.version ≢ ""
    pub kind : spec.selector.kind ≢ ""
    pub events : is_empty spec.events ≡ false
    pub has_action : is_empty spec.actions ≡ false
    pub filters : ValidFilters spec.events spec.filters
    pub actions : All ValidAction spec.actions

  -- A specification passes the validation exactly when it is valid: it selects a version and a
  -- kind, has an event and an action, its filters compile and watch label changes only on updates,
  -- and each action has a parsable schedule if it is scheduled and is a valid http or job action.
  pub validate_resource_action_spec_iff :
      (spec : ResourceActionSpec)
      → (validate_resource_action_spec std spec ≡ ok tt) ↔ IsValidSpec spec
  unfolding validate_resource_action_spec
  validate_resource_action_spec_iff spec =
      let conjunction =
        >>_iff _ _ (reject_if_iff (spec.selector.version == "" || spec.selector.kind == "") _) (
          >>_iff _ _ (reject_if_iff (is_empty spec.events) _) (
            >>_iff _ _ (reject_if_iff (is_empty spec.actions) _) (
              >>_iff _ _ (check_filters_iff spec.events spec.filters)
                (for_each_iff (check_action std) check_action_iff 0 spec.actions)))) in
      ↔-trans conjunction (
        (λ h. record {
          version = (ne_iff _ _).0 (ground arith);
          kind = (ne_iff _ _).0 (ground arith);
          events = h.1.0;
          has_action = h.1.1.0;
          filters = h.1.1.1.0;
          actions = h.1.1.1.1;
        }),
        (λ h. (selected spec h.version h.kind, (h.events, (h.has_action, (h.filters, h.actions))))),
      )
