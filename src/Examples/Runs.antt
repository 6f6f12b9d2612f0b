-- ===== src/Examples/Runs.antt =====
-- Runs of the executor (internal/engine/executor.go, internal/engine/job_executor.go) and the
-- conditions that they leave, on a concrete world.
use resource_action_operator.Prelude.{
  ◌≡◌, refl, ◌+◌, arith, some, [], ◌∷◌, ok, err, ◌==◌, if◌then◌else◌, true, external, inr,
}
use resource_action_operator.Kube.{KubeJob}
use resource_action_operator.Examples.Sample.{
  sample_std, sample_runtime, sample_action, sample_input, sample_job, start_world, cron_action,
}
use resource_action_operator.Examples.Validations.{sample_job-IsValid}
use resource_action_operator.Matching.{already_executed, event_text}
use resource_action_operator.Conditions.{set_condition, find_condition}
use resource_action_operator.Conditions.Upsert.{moved, find-set_condition}
use Prim.Native.String.{len}
use resource_action_operator.Prelude.Text.{itoa}
use resource_action_operator.Jobs.Build.{build_job_for_action, job_generate_name}
use resource_action_operator.Jobs.Build.Named.{IsName, job_generate_name-IsName}
use resource_action_operator.Jobs.Build.WellFormed.{IsWellFormed, build_job_for_action-IsWellFormed}
use resource_action_operator.Executor.Actions.{no_totals, run_actions}
use resource_action_operator.Executor.Actions.Counted.{
  pending, run_pending, run_actions-eq-run_pending,
}
use resource_action_operator.Executor.Event.{int_text, event_message}
use resource_action_operator.Executor.Status.{exec_record, record_run, failed_condition}
use resource_action_operator.Executor.Status.Recorded.{record_run-already_executed}
use resource_action_operator.Executor.Run.{execute_all}
use resource_action_operator.Executor.Run.Effects.{execute_all_idle}

find-set_condition_example :
    find_condition "Ready"
      (set_condition 7 sample_action (failed_condition "timeout")).status.conditions
    ≡ (if (failed_condition "timeout").type == "Ready"
        then some (record (failed_condition "timeout") {
          observed_generation = sample_action.generation;
          last_transition_time =
              moved 7
                (failed_condition "timeout")
                (find_condition (failed_condition "timeout").type sample_action.status.conditions);
        })
        else find_condition "Ready" sample_action.status.conditions)
find-set_condition_example = find-set_condition 7 sample_action (failed_condition "timeout") "Ready"

build_job_for_action-IsWellFormed_example :
    (built : KubeJob) × (build_job_for_action sample_std "abcde" sample_action 2 "job" sample_job
        sample_input
      ≡ ok built)
    × IsWellFormed built
build_job_for_action-IsWellFormed_example =
    build_job_for_action-IsWellFormed sample_std "abcde" sample_action 2 "job" sample_job
      sample_input sample_job-IsValid

job_generate_name-IsName_example :
    IsName (job_generate_name sample_std "x7k2p" "my.app-v1" 12) (45 + len (itoa 12))
job_generate_name-IsName_example =
    job_generate_name-IsName sample_std "x7k2p" "my.app-v1" 12 (ground arith) (ground arith) refl

run_actions-eq-run_pending_example :
    run_actions sample_std sample_runtime sample_action sample_input 0 sample_action.spec.actions
    ≡ run_pending sample_std sample_runtime sample_action sample_input
        (pending 0 sample_action.spec.actions)
run_actions-eq-run_pending_example =
    run_actions-eq-run_pending sample_std sample_runtime sample_action sample_input 0
      sample_action.spec.actions

record_run-already_executed_example :
    already_executed
      (record_run sample_std
        (exec_record sample_input 1000 no_totals)
        (err (external "refused"))
        1001
        sample_action).status.executions
      sample_input.obj.uid
      (event_text sample_input.event)
    ≡ true
record_run-already_executed_example =
    record_run-already_executed sample_std sample_input 1000 1001 no_totals
      (err (external "refused")) sample_action

-- A resource that has only a cron action.
execute_all_idle_example :
    let ra = record sample_action {
      spec = record sample_action.spec { actions = cron_action ∷ [] };
    } in
    execute_all sample_std sample_runtime true sample_input (ra ∷ []) start_world
    ≡ (ok tt, start_world)
execute_all_idle_example =
    execute_all_idle sample_std sample_runtime true sample_input
      (record sample_action { spec = record sample_action.spec { actions = cron_action ∷ [] } }
        ∷ [])
      start_world (inr (inr (refl, tt)), tt)

emits_message :
    event_message sample_std (exec_record sample_input 900 no_totals) (some (external "refused"))
    ≡ "event=Update actions=0 attempts=0 retries=0 networkRetries=0 statusRetries=0 backoffMs=0 durationMs=0 status=0 error=error"
unfolding event_message int_text itoa exec_record
emits_message = refl
