-- ===== src/Jobs/Track.antt =====
-- What the job executor reports of a running Job: deriveJobStatus, findJobPodDetails,
-- collectJobExecutionDetails and updateJobExecutionRecord (internal/engine/job_executor.go).
pub mod Status
pub mod Recorded
pub mod Executed
pub mod Ends
pub mod Joined
pub mod Reported
use resource_action_operator.Prelude.{
  ℕ, ◌+◌, String, Option, none, some, List, [], ◌∷◌, ◌++◌, Bool, true, false, not, ◌&&◌, ◌||◌, ◌==◌,
  length, Result, ok, err, Check, if◌then◌else◌,
}
use resource_action_operator.Prelude.Int.{ℤ, pos, ltb_ℤ, sub_ℕ, pos_part, neg_part}
use resource_action_operator.Api.{ResourceAction, JobSpec, JobExecutionRecord, ExecutionRecord}
use resource_action_operator.Kube.{KubeJob, JobCondition, ContainerStatus, Pod}
use resource_action_operator.Runtime.{Runtime, ◌>>=◌, continue}
use resource_action_operator.Matching.{MatchInput, event_text}
use resource_action_operator.Jobs.Logs.{fetch_pod_log_tail}
use resource_action_operator.Metrics.{observe_job_execution}

-- The loop over the conditions: `none` where it falls through.
unfoldable pub status_of_conditions : List JobCondition → Option String
status_of_conditions [] = none
status_of_conditions (c ∷ cs) =
    let rest = status_of_conditions cs in
    if not (c.status == "True")
    then rest
    else if c.type == "Complete"
    then some "Succeeded"
    else if c.type == "Failed"
    then some "Failed"
    else rest

abbrev pub status_or : Option String → ℤ → String
status_or (some status) active = status
status_or none active = if ltb_ℤ (pos 0) active then "Running" else "Created"

unfoldable pub derive_job_status : KubeJob → String
unfolding status_of_conditions
derive_job_status job = status_or (status_of_conditions job.status.conditions) job.status.active

-- The exit code of the first container that is called runner.
unfoldable pub runner_exit_code : List ContainerStatus → Option ℤ
runner_exit_code [] = none
runner_exit_code (s ∷ statuses) =
    if not (s.name == "runner") then runner_exit_code statuses else s.terminated

-- `pods` is what listing the pods of the Job gives.
unfoldable pub find_job_pod_details : Result (List Pod) → String × Option ℤ
unfolding runner_exit_code
find_job_pod_details (err e) = ("", none)
find_job_pod_details (ok []) = ("", none)
find_job_pod_details (ok (pod ∷ pods)) = (pod.name, runner_exit_code pod.container_statuses)

-- The two tests of the loop: the execution is of the object and the event, and its Job is this one.
abbrev pub has_job : String → Option JobExecutionRecord → Bool
has_job name none = false
has_job name (some job) = job.name == name

unfoldable pub is_execution_of : MatchInput → String → ExecutionRecord → Bool
unfolding event_text
is_execution_of input name exec =
    exec.resource_uid == input.obj.uid
    && exec.event == event_text input.event
    && has_job name exec.job

-- The loop from the last execution to the first: `none` where no execution is of the Job.
abbrev pub or_here :
    Bool
    → ExecutionRecord
    → JobExecutionRecord
    → List ExecutionRecord
    → Option (List ExecutionRecord)
or_here true exec job_record execs = some (record exec { job = some job_record } ∷ execs)
or_here false exec job_record execs = none

abbrev pub later_or_here :
    MatchInput
    → JobExecutionRecord
    → ExecutionRecord
    → List ExecutionRecord
    → Option (List ExecutionRecord)
    → Option (List ExecutionRecord)
later_or_here input job_record exec execs (some later) = some (exec ∷ later)
later_or_here input job_record exec execs none =
    or_here (is_execution_of input job_record.name exec) exec job_record execs

unfoldable pub replace_last :
    MatchInput → JobExecutionRecord → List ExecutionRecord → Option (List ExecutionRecord)
unfolding is_execution_of
replace_last input job_record [] = none
replace_last input job_record (exec ∷ execs) =
    later_or_here input job_record exec execs (replace_last input job_record execs)

-- The execution that is appended where none is found.
abbrev pub job_only_record : MatchInput → ℕ → JobExecutionRecord → ExecutionRecord
job_only_record input now job_record = record {
  resource_uid = input.obj.uid;
  event = event_text input.event;
  executed_at = now;
  action_count = pos 0;
  attempts = pos 0;
  retry_count = pos 0;
  network_retry_count = pos 0;
  status_retry_count = pos 0;
  backoff_millis = pos 0;
  duration_millis = pos 0;
  last_http_status = pos 0;
  job = some job_record;
}

abbrev pub replaced_or_appended :
    MatchInput
    → ℕ
    → JobExecutionRecord
    → List ExecutionRecord
    → Option (List ExecutionRecord)
    → List ExecutionRecord
replaced_or_appended input now job_record execs (some replaced) = replaced
replaced_or_appended input now job_record execs none =
    execs ++ job_only_record input now job_record ∷ []

-- What the closure of updateJobExecutionRecord makes of the executions.
unfoldable pub put_job_record :
    MatchInput → ℕ → JobExecutionRecord → List ExecutionRecord → List ExecutionRecord
unfolding replace_last event_text
put_job_record input now job_record execs =
    replaced_or_appended input now job_record execs (replace_last input job_record execs)

-- The select of the loop of trackJobExecution: its deadline, or a tick.
pub data Wake : Type 0 where
  deadline tick : Wake

abbrev pub is_final : String → Bool
is_final status = status == "Succeeded" || status == "Failed"

abbrev pub result_of : String → String
result_of status = if status == "Succeeded" then "success" else "failure"

abbrev pub timeout_record : KubeJob → JobExecutionRecord
timeout_record job = record {
  name = job.name;
  namespace = job.namespace;
  pod_name = "";
  status = "Timeout";
  exit_code = none;
  started_at = none;
  completed_at = none;
  log_tail = [];
}

module _ {W : Type 0} (rt : Runtime W) where
  -- The clock is read only for a record that is appended.
  abbrev pub append_time : Option (List ExecutionRecord) → W → ℕ × W
  append_time (some replaced) w = (0, w)
  append_time none w = rt.clock w

  abbrev pub with_executions : ResourceAction → List ExecutionRecord → ResourceAction
  with_executions latest execs = record latest {
    status = record latest.status { executions = execs };
  }

  -- One call of the closure of updateJobExecutionRecord.
  unfoldable pub update_job_once : ResourceAction → MatchInput → JobExecutionRecord → W → Check × W
  unfolding put_job_record replace_last
  update_job_once ra input job_record = do
    latest ← rt.get_action ra.name ra.namespace
    let execs = latest.status.executions
    now ← (λ w. let (t, w') = append_time (replace_last input job_record execs) w in (ok t, w'))
    rt.update_status (with_executions latest (put_job_record input now job_record execs))

  -- The result is dropped.
  unfoldable pub update_job_execution_record :
      ResourceAction → MatchInput → JobExecutionRecord → W → W
  unfolding update_job_once
  update_job_execution_record ra input job_record w =
      (rt.retry_on_conflict (update_job_once ra input job_record) w).1

  -- The logs are read where lines of them are wanted and the pod is known.
  abbrev pub read_logs : Option ℤ → KubeJob → String → W → List String × W
  read_logs none job pod_name w = ([], w)
  read_logs (some lines) job pod_name w =
      if ltb_ℤ (pos 0) lines && not (pod_name == "")
      then fetch_pod_log_tail rt job.namespace pod_name lines w
      else ([], w)

  unfoldable pub collect_job_execution_details : KubeJob → JobSpec → W → JobExecutionRecord × W
  unfolding derive_job_status find_job_pod_details fetch_pod_log_tail
  collect_job_execution_details job spec w =
      let (pods, w') = rt.list_pods job.namespace job.name w in
      let (pod_name, exit_code) = find_job_pod_details pods in
      let (logs, w'') = read_logs spec.log_tail_lines job pod_name w' in
      (
        record {
          name = job.name;
          namespace = job.namespace;
          pod_name = pod_name;
          status = derive_job_status job;
          exit_code = exit_code;
          started_at = job.status.start_time;
          completed_at = job.status.completion_time;
          log_tail = logs;
        },
        w'',
      )

  module _ (ra : ResourceAction) (input : MatchInput) (job : KubeJob) (spec : JobSpec) where
    -- time.Since of a time in milliseconds.
    abbrev pub millis_since : ℤ → W → ℤ × W
    millis_since t w = let (now, w') = rt.clock w in (sub_ℕ (now + neg_part t) (pos_part t), w')

    unfoldable pub observe_final : KubeJob → JobExecutionRecord → W → W
    unfolding observe_job_execution
    observe_final current job_record w =
        let (duration, w') = millis_since current.creation_timestamp w in
        observe_job_execution rt (result_of job_record.status) duration (length job_record.log_tail)
          w'

    -- Does the loop go on?
    unfoldable pub on_current : Result KubeJob → W → Bool × W
    unfolding collect_job_execution_details update_job_execution_record observe_final
    on_current (err e) w = (false, w)
    on_current (ok current) w =
        let (job_record, w') = collect_job_execution_details current spec w in
        let w'' = update_job_execution_record ra input job_record w' in
        if is_final job_record.status
        then (false, observe_final current job_record w'')
        else (true, w'')

    unfoldable pub track_round : Wake → W → Bool × W
    unfolding on_current update_job_execution_record
    track_round deadline w = (false, update_job_execution_record ra input (timeout_record job) w)
    track_round tick w =
        let (current, w') = rt.get_job job.name job.namespace w in on_current current w'

    -- trackJobExecution, as far as its wakes go.
    unfoldable pub track_job_execution : List Wake → W → W
    unfolding track_round
    track_job_execution [] w = w
    track_job_execution (wake ∷ wakes) w =
        let (goes_on, w') = track_round wake w in
        let rest = track_job_execution wakes w' in if goes_on then rest else w'
