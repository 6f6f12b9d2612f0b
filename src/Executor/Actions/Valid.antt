-- ===== src/Executor/Actions/Valid.antt =====
-- How an action ends that the validation let through: api/v1alpha1/validation.go before executeAction
-- of internal/engine/executor.go.
use resource_action_operator.Prelude.{◌≡◌, ◌⊎◌, Option, some, ok, err, Check, Error}
use resource_action_operator.Api.{ResourceAction, ActionSpec, JobExecutionRecord}
use resource_action_operator.Std.{Std}
use resource_action_operator.Kube.{KubeJob}
use resource_action_operator.Matching.{MatchInput}
use resource_action_operator.Runtime.{Runtime}
use resource_action_operator.Http.Attempts.{HttpExecutionMetrics}
use resource_action_operator.Http.Transport.{build_transport}
use resource_action_operator.Http.Execute.Valid.{SentOrCaused}
use resource_action_operator.Jobs.Build.WellFormed.{IsWellFormed}
use resource_action_operator.Jobs.Execute.{JobExecutionMetrics, created_record}
use resource_action_operator.Executor.Actions.{of_job, resolve_headers}

module _ {W : Type 0} (std : Std) (rt : Runtime W) (ra : ResourceAction) (input : MatchInput) where
  -- A Job was built and submitted; the action ends as its creation does.
  pub record IsSubmitted (job : Option JobExecutionRecord) (r : Check) : Type 0 where
    pub built : KubeJob
    pub well_formed : IsWellFormed built
    pub before : W
    pub created :
        ((e : Error) × ((rt.create_job built before).0 ≡ err e) × (r ≡ err e))
        ⊎ ((created : KubeJob) × ((rt.create_job built before).0 ≡ ok created)
            × (r ≡ ok tt)
            × (job ≡ some (created_record created)))

  abbrev Submits : (JobExecutionMetrics × Check) × W → Type 0
  Submits ((m, r), w) = IsSubmitted m.details r

  -- How the action of a specification that is accepted ends: an http action whose headers can be
  -- resolved is sent or has a cause why it is not; a job is submitted.
  abbrev pub AsValidated : ActionSpec → W → (HttpExecutionMetrics × Check) × W → Type 0
  AsValidated action w ((m, r), w') =
      ((action.type ≡ "http")
        × (((e : Error) × ((resolve_headers std rt action.headers ra.namespace w).0 ≡ err e)
              × (r ≡ err e))
            ⊎ SentOrCaused std rt action
                (build_transport std rt ra.namespace action.tls
                  (rt.clock (resolve_headers std rt action.headers ra.namespace w).1).1).0
                input.obj (m, r)))
      ⊎ ((action.type ≡ "job") × IsSubmitted m.job r)

  abbrev job_action : (JobExecutionMetrics × Check) × W → (HttpExecutionMetrics × Check) × W
  job_action ((m, r), w) = ((of_job m, r), w)
