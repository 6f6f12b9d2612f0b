-- ===== src/Examples/Engines.antt =====
-- The engine, the controller, the webhook and the reports on Jobs on concrete values.
use resource_action_operator.Prelude.{
  ◌≡◌, refl, ◌↔◌, none, some, [], ◌∷◌, ok, ◌||◌, ◌&&◌, ◌==◌, ◌++◌, if◌then◌else◌,
}
use resource_action_operator.Prelude.Int.{pos}
use resource_action_operator.Api.{JobExecutionRecord}
use resource_action_operator.Kube.{KubeJob}
use resource_action_operator.Examples.Sample.{
  sample_std, sample_runtime, sample_action, sample_input, sample_job, start_world,
}
use resource_action_operator.Matching.{GroupVersionKind, already_executed, event_text}
use resource_action_operator.Webhook.{
  resource_action, other_object, validate_create, validate_update, IsAdmissible, admits_iff,
}
use resource_action_operator.Engine.{new_engine, ensure_watching}
use resource_action_operator.Engine.Ensured.{Ensures, ensure_watching-Ensures}
use resource_action_operator.Jobs.Execute.{created_record}
use resource_action_operator.Jobs.Build.{assemble_job}
use resource_action_operator.Jobs.Track.{derive_job_status, put_job_record, job_only_record}
use resource_action_operator.Jobs.Track.Status.{FirstEnds, derive_job_status_iff}
use resource_action_operator.Jobs.Track.Joined.{put_job_record-exec_record}
use resource_action_operator.Executor.Actions.{Totals, no_totals}
use resource_action_operator.Executor.Status.{exec_record}
use resource_action_operator.Jobs.Track.Executed.{put_job_record-already_executed}

admits_iff_example :
    ((validate_create sample_std (resource_action sample_action) ≡ ok tt)
      ↔ IsAdmissible sample_std (resource_action sample_action))
    × ((validate_update sample_std other_object (resource_action sample_action) ≡ ok tt)
        ↔ IsAdmissible sample_std (resource_action sample_action))
admits_iff_example = admits_iff sample_std other_object (resource_action sample_action)

abbrev deployments : GroupVersionKind
deployments = record { group = "apps"; version = "v1"; kind = "Deployment" }

ensure_watching-Ensures_example :
    Ensures deployments sample_std sample_runtime new_engine start_world
      (ensure_watching sample_std sample_runtime deployments (new_engine, start_world))
ensure_watching-Ensures_example =
    ensure_watching-Ensures deployments sample_std sample_runtime new_engine start_world

abbrev running_job : KubeJob
running_job =
    record (assemble_job sample_std "abcde" sample_action 2 "job" sample_job sample_input
      ([], [])) {
        name = "job-1";
        status = record {
          active = pos 1;
          start_time = some 1000;
          completion_time = none;
          conditions =
              record { type = "Failed"; status = "False" }
              ∷ record { type = "Complete"; status = "True" }
              ∷ [];
        };
      }

derive_job_status_iff_example :
    (derive_job_status running_job ≡ "Succeeded")
    ↔ FirstEnds "Complete" running_job.status.conditions
derive_job_status_iff_example = derive_job_status_iff running_job

abbrev report : JobExecutionRecord
report = record (created_record running_job) { status = "Running" }

put_job_record-already_executed_example :
    already_executed (put_job_record sample_input 1000 report []) "uid-2" "Update" ≡ (
      already_executed [] "uid-2" "Update"
      || (sample_input.obj.uid == "uid-2" && event_text sample_input.event == "Update"))
put_job_record-already_executed_example =
    put_job_record-already_executed sample_input report "uid-2" "Update" 1000 []

abbrev with_running : Totals
with_running = record no_totals { last_job_details = some (created_record running_job) }

put_job_record-exec_record_example :
    put_job_record sample_input 1000 report ([] ++ exec_record sample_input 900 with_running ∷ [])
    ≡ (if (created_record running_job).name == report.name
        then [] ++ record (exec_record sample_input 900 with_running) { job = some report } ∷ []
        else ([] ++ exec_record sample_input 900 with_running ∷ [])
          ++ job_only_record sample_input 1000 report ∷ [])
put_job_record-exec_record_example =
    put_job_record-exec_record sample_input report 1000 900 with_running
      (created_record running_job) [] refl refl
