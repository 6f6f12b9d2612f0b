-- ===== src/Jobs/Execute.antt =====
-- JobExecutor.Execute (internal/engine/job_executor.go): a Job is created, and a goroutine follows it.
pub mod Frame
use resource_action_operator.Prelude.{
  ℕ, String, Option, none, some, List, [], Result, ok, err, Check, job_spec_missing,
}
use resource_action_operator.Prelude.Int.{ℤ, pos, sub_ℕ}
use resource_action_operator.Api.{ResourceAction, JobSpec, JobExecutionRecord}
use resource_action_operator.Std.{Std}
use resource_action_operator.Kube.{KubeJob}
use resource_action_operator.Matching.{MatchInput}
use resource_action_operator.Runtime.{Runtime, track_job}
use resource_action_operator.Jobs.Command.{resolve_job_command}
use resource_action_operator.Jobs.Build.{build_job_for_action}

pub record JobExecutionMetrics : Type 0 where
  pub attempts : ℕ
  pub duration_millis : ℤ
  pub details : Option JobExecutionRecord

abbrev pub one_attempt : JobExecutionMetrics
one_attempt = record { attempts = 1; duration_millis = pos 0; details = none }

abbrev pub created_record : KubeJob → JobExecutionRecord
created_record job = record {
  name = job.name;
  namespace = job.namespace;
  pod_name = "";
  status = "Created";
  exit_code = none;
  started_at = none;
  completed_at = none;
  log_tail = [];
}

module _ {W : Type 0} (std : Std) (rt : Runtime W) (ra : ResourceAction) (input : MatchInput) where
  -- The end of the function, once the Job was created or not.
  unfoldable pub after_create : JobSpec → ℕ → Result KubeJob → W → (JobExecutionMetrics × Check) × W
  after_create job started_at (err e) w = ((one_attempt, err e), w)
  after_create job started_at (ok created) w =
      let w' = rt.start (track_job ra input created job) w in
      let (now, w'') = rt.clock w' in
      (
        (
          record one_attempt {
            duration_millis = sub_ℕ now started_at;
            details = some (created_record created);
          },
          ok tt,
        ),
        w'',
      )

  unfoldable pub create_built : JobSpec → ℕ → Result KubeJob → W → (JobExecutionMetrics × Check) × W
  unfolding after_create
  create_built job started_at (err e) w = ((one_attempt, err e), w)
  create_built job started_at (ok built) w =
      let (created, w') = rt.create_job built w in after_create job started_at created w'

  -- The name is generated only for a Job that has a command.
  abbrev pub draw_suffix : Result (List String × List String) → W → String × W
  draw_suffix (err e) w = ("", w)
  draw_suffix (ok program) w = rt.random_suffix w

  unfoldable pub execute_job : ℕ → String → Option JobSpec → W → (JobExecutionMetrics × Check) × W
  unfolding create_built build_job_for_action
  execute_job action_index type none w =
      let (started_at, w') = rt.clock w in ((one_attempt, err job_spec_missing), w')
  execute_job action_index type (some job) w =
      let (started_at, w') = rt.clock w in
      let (suffix, w'') = draw_suffix (resolve_job_command job) w' in
      create_built job started_at (build_job_for_action std suffix ra action_index type job input)
        w''
