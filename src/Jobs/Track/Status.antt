-- ===== src/Jobs/Track/Status.antt =====
-- What deriveJobStatus (internal/engine/job_executor.go) reports of a Job.
use resource_action_operator.Prelude.{
  ◌≡◌, refl, ap, ◌≢◌, ◌↔◌, ↔-trans, ◌⊎◌, inl, inr, String, Option, none, some, List, [], ◌∷◌, arith,
  not, ◌==◌, eq_iff, Bool-cases, if◌then◌else◌,
}
use mathlib.Core.Option.{some-injective}
use resource_action_operator.Prelude.Text.{ne_iff}
use resource_action_operator.Prelude.Int.{ℤ, pos, ltb_ℤ}
use resource_action_operator.Kube.{KubeJob, JobCondition}
use resource_action_operator.Jobs.Track.{status_of_conditions, status_or, derive_job_status}

-- A condition that is true and ends the Job.
abbrev pub Ends : String → JobCondition → Type 0
Ends type c = (c.status ≡ "True") × (c.type ≡ type)

abbrev pub IsOpen : JobCondition → Type 0
IsOpen c = (c.status ≢ "True") ⊎ ((c.type ≢ "Complete") × (c.type ≢ "Failed"))

-- The first condition that ends the Job is of this type.
abbrev pub FirstEnds : String → List JobCondition → Type 0
FirstEnds type [] = ⊥
FirstEnds type (c ∷ cs) = Ends type c ⊎ (IsOpen c × FirstEnds type cs)

complete_not_failed : ◌≢◌ {A = String} "Complete" "Failed"
complete_not_failed = ground (arith, eq_iff "Complete" "Failed")

closed :
    (c : JobCondition)
    → IsOpen c
    → c.status ≡ "True"
    → ¬ ((c.type ≡ "Complete") ⊎ (c.type ≡ "Failed"))
closed c (inl open') true' ends = open' true'
closed c (inr (m, n)) true' (inl complete) = m complete
closed c (inr (m, n)) true' (inr failed) = n failed

-- One round of the loop.
Round_iff :
    (c : JobCondition) (rest : Option String)
    → ((if not (c.status == "True")
          then rest
          else if c.type == "Complete"
          then some "Succeeded"
          else if c.type == "Failed"
          then some "Failed"
          else rest)
        ≡ some "Succeeded")
      ↔ (Ends "Complete" c ⊎ (IsOpen c × (rest ≡ some "Succeeded")))
Round_iff c rest = elim (Bool-cases (c.status == "True")) [
  | inr open' ↦ (
    (λ h. inr (inl ((ne_iff _ _).0 open'), rw open' at h)),
    (λ h. elim h [
      | inl ends ↦ absurd ((ne_iff _ _).0 open' ends.0)
      | inr (_, found) ↦ rw open' found
    ]),
  )
  | inl true' ↦ elim (Bool-cases (c.type == "Complete")) [
    | inl complete ↦ (
      (λ h. inl ((eq_iff _ _).0 true', (eq_iff _ _).0 complete)),
      (λ h. rw (true', complete) refl),
    )
    | inr other ↦ elim (Bool-cases (c.type == "Failed")) [
      | inl failed ↦ (
        (λ h. cc (rw (true', other, failed) at h)),
        (λ h. elim h [
          | inl ends ↦ absurd ((ne_iff _ _).0 other ends.1)
          | inr (open', _) ↦
              absurd (closed c open' ((eq_iff _ _).0 true') (inr ((eq_iff _ _).0 failed)))
        ]),
      )
      | inr neither ↦ (
        (λ h.
            inr (
              inr ((ne_iff _ _).0 other, (ne_iff _ _).0 neither),
              rw (true', other, neither) at h,
            )),
        (λ h. elim h [
          | inl ends ↦ absurd ((ne_iff _ _).0 other ends.1)
          | inr (_, found) ↦ rw (true', other, neither) found
        ]),
      )
    ]
  ]
]

status_of_conditions_iff :
    (cs : List JobCondition)
    → (status_of_conditions cs ≡ some "Succeeded") ↔ FirstEnds "Complete" cs
unfolding status_of_conditions
status_of_conditions_iff [] = ((λ h. cc), (λ h. elim h [ ]))
status_of_conditions_iff (c ∷ cs) =
    let ih = status_of_conditions_iff cs in
    ↔-trans (Round_iff c (status_of_conditions cs)) (
      (λ h. elim h [ inl ends ↦ inl ends | inr (open', found) ↦ inr (open', ih.0 found) ]),
      (λ h. elim h [ inl ends ↦ inl ends | inr (open', found) ↦ inr (open', ih.1 found) ]),
    )

running_not_succeeded : (active : ℤ) → status_or none active ≢ "Succeeded"
running_not_succeeded active = elim (Bool-cases (ltb_ℤ (pos 0) active)) [
  | inl running ↦ rw running (λ h. ground (arith, eq_iff "Running" "Succeeded"))
  | inr idle ↦ rw idle (λ h. ground (arith, eq_iff "Created" "Succeeded"))
]

status_or_iff :
    (o : Option String) (active : ℤ) → (status_or o active ≡ "Succeeded") ↔ (o ≡ some "Succeeded")
status_or_iff none active = ((λ h. absurd (running_not_succeeded active h)), (λ h. cc))
status_or_iff (some status) active = ((λ h. ap some h), (λ h. some-injective _ _ h))

-- A Job is reported as succeeded exactly when, of its conditions that are true and of the type
-- Complete or Failed, there is a first one and its type is Complete; the number of active pods and
-- all other conditions do not matter.
pub derive_job_status_iff :
    (job : KubeJob)
    → (derive_job_status job ≡ "Succeeded") ↔ FirstEnds "Complete" job.status.conditions
unfolding derive_job_status
derive_job_status_iff job =
    ↔-trans (status_or_iff (status_of_conditions job.status.conditions) job.status.active)
      (status_of_conditions_iff job.status.conditions)
