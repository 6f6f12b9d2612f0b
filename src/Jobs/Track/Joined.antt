-- ===== src/Jobs/Track/Joined.antt =====
-- A report on a Job meets the record of the run that created it: updateJobExecutionRecord of
-- internal/engine/job_executor.go after Execute of internal/engine/executor.go.
use resource_action_operator.Prelude.{
  ℕ, ◌≡◌, refl, ap, ◌∙◌, inl, inr, Option, none, some, List, [], ◌∷◌, ◌++◌, any, any-append, false,
  ◌==◌, eq_refl, Bool-cases, is_some, if◌then◌else◌,
}
use resource_action_operator.Api.{ExecutionRecord, JobExecutionRecord}
use resource_action_operator.Matching.{MatchInput, event_text}
use resource_action_operator.Executor.Actions.{Totals}
use resource_action_operator.Executor.Status.{exec_record}
use resource_action_operator.Jobs.Track.{
  has_job, is_execution_of, replace_last, job_only_record, replaced_or_appended, put_job_record,
}
use resource_action_operator.Jobs.Track.Recorded.{replace_last-append, replace_last-is_some}

module _ (input : MatchInput) (r : JobExecutionRecord) where
  put_found :
      (now : ℕ) (execs replaced : List ExecutionRecord)
      → replace_last input r execs ≡ some replaced
      → put_job_record input now r execs ≡ replaced
  unfolding put_job_record
  put_found now execs replaced h = ap (replaced_or_appended input now r execs) h

  put_not_found :
      (now : ℕ) (execs : List ExecutionRecord) (o : Option (List ExecutionRecord))
      → is_some o ≡ false
      → replaced_or_appended input now r execs o ≡ execs ++ job_only_record input now r ∷ []
  put_not_found now execs none h = refl
  put_not_found now execs (some replaced) h = cc

  put_new :
      (now : ℕ) (execs : List ExecutionRecord)
      → any (is_execution_of input r.name) execs ≡ false
      → put_job_record input now r execs ≡ execs ++ job_only_record input now r ∷ []
  unfolding put_job_record
  put_new now execs h =
      put_not_found now execs (replace_last input r execs) (replace_last-is_some input r execs ∙ h)

  none_with :
      (execs : List ExecutionRecord) (exec : ExecutionRecord)
      → any (is_execution_of input r.name) execs ≡ false
      → is_execution_of input r.name exec ≡ false
      → any (is_execution_of input r.name) (execs ++ exec ∷ []) ≡ false
  none_with execs exec h other =
      any-append (is_execution_of input r.name) execs (exec ∷ []) ∙ rw (h, other) refl

  exec_record-is_execution_of :
      (at : ℕ) (t : Totals) (job : JobExecutionRecord)
      → t.last_job_details ≡ some job
      → is_execution_of input r.name (exec_record input at t) ≡ (job.name == r.name)
  unfolding is_execution_of exec_record
  exec_record-is_execution_of at t job h =
      rw (eq_refl input.obj.uid, eq_refl (event_text input.event)) (ap (has_job r.name) h)

  -- A run whose last Job is `job` is recorded behind other executions, none of which is of the Job
  -- that a report names. If the report is on `job`, it takes the place of the record of that run, and
  -- the executions are otherwise as they were. If it is on a Job of another name, it is appended as
  -- an execution of its own.
  pub put_job_record-exec_record :
      (now at : ℕ) (t : Totals) (job : JobExecutionRecord) (execs : List ExecutionRecord)
      → t.last_job_details ≡ some job
      → any (is_execution_of input r.name) execs ≡ false
      → put_job_record input now r (execs ++ exec_record input at t ∷ []) ≡ (
          if job.name == r.name
          then execs ++ record (exec_record input at t) { job = some r } ∷ []
          else (execs ++ exec_record input at t ∷ []) ++ job_only_record input now r ∷ [])
  put_job_record-exec_record now at t job execs last fresh =
      let run = exec_record input at t in
      let of_job = exec_record-is_execution_of at t job last in
      elim (Bool-cases (job.name == r.name)) [
        | inl same ↦
            rw same (put_found now _ _ (replace_last-append input r execs run (of_job ∙ same)))
        | inr other ↦
            rw other (put_new now (execs ++ run ∷ []) (none_with execs run fresh (of_job ∙ other)))
      ]
