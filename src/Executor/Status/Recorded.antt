-- ===== src/Executor/Status/Recorded.antt =====
-- What a run leaves in the status of its ResourceAction (Execute of internal/engine/executor.go).
use resource_action_operator.Prelude.{
  ℕ, ◌≡◌, refl, String, some, [], ◌∷◌, ◌++◌, Bool, true, false, ◌||◌, eq_refl, any-append, ok, err,
  Check,
}
use resource_action_operator.Api.{ResourceAction, ExecutionRecord, Condition}
use resource_action_operator.Std.{Std}
use resource_action_operator.Matching.{MatchInput, event_text, already_executed}
use resource_action_operator.Conditions.{find_condition}
use resource_action_operator.Conditions.Upsert.{moved, find-set_condition}
use resource_action_operator.Executor.Actions.{Totals}
use resource_action_operator.Executor.Status.{
  exec_record, failed_condition, succeeded_condition, with_execution, record_run,
}

or_true : (b : Bool) → (b || (true || false)) ≡ true
or_true true = refl
or_true false = refl

-- What setting a condition leaves alone.
pub executions-record_run :
    (std : Std) (exec : ExecutionRecord) (r : Check) (now : ℕ) (latest : ResourceAction)
    → (record_run std exec r now latest).status.executions ≡ latest.status.executions ++ exec ∷ []
unfolding record_run
executions-record_run std exec (ok _) now latest = refl
executions-record_run std exec (err e) now latest = refl

-- Whatever the outcome of a run, once it is recorded the event counts as executed for the object,
-- so the ResourceAction is skipped from then on.
pub record_run-already_executed :
    (std : Std) (input : MatchInput) (at now : ℕ) (t : Totals) (r : Check) (latest : ResourceAction)
    → already_executed
        (record_run std (exec_record input at t) r now latest).status.executions
        input.obj.uid
        (event_text input.event)
      ≡ true
unfolding already_executed exec_record
record_run-already_executed std input at now t r latest =
    rw (executions-record_run std (exec_record input at t) r now latest) (
      rw (any-append _ latest.status.executions)
        (rw (eq_refl input.obj.uid, eq_refl (event_text input.event)) (or_true _)))

-- The texts of the outcome.
abbrev pub error_of : Std → Check → String
error_of std (ok _) = ""
error_of std (err e) = std.error_text e

abbrev pub ready_of : Std → Check → Condition
ready_of std (ok _) = succeeded_condition
ready_of std (err e) = failed_condition (std.error_text e)

-- The status of a recorded run: its record stands at the end of the executions, the last error is
-- that of the run (empty on success), and the Ready condition is that of the outcome, at the
-- generation of the resource, with a new transition time exactly if its status changed.
pub record_run_status :
    (std : Std) (exec : ExecutionRecord) (r : Check) (now : ℕ) (latest : ResourceAction)
    → let recorded = record_run std exec r now latest in
      (recorded.status.executions ≡ latest.status.executions ++ exec ∷ [])
      × (recorded.status.last_error ≡ error_of std r)
      × (find_condition "Ready" recorded.status.conditions
          ≡ some (record (ready_of std r) {
            observed_generation = latest.generation;
            last_transition_time =
                moved now (ready_of std r) (find_condition "Ready" latest.status.conditions);
          }))
unfolding record_run
record_run_status std exec (ok _) now latest =
    (refl, refl, find-set_condition now (with_execution latest exec "") succeeded_condition "Ready")
record_run_status std exec (err e) now latest = (
  refl,
  refl,
  find-set_condition now (with_execution latest exec (std.error_text e))
      (failed_condition (std.error_text e)) "Ready",
)
