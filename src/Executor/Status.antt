-- ===== src/Executor/Status.antt =====
-- The status update of Execute (internal/engine/executor.go): the record of a run, and the closure
-- that appends it to the latest version of the resource.
pub mod Recorded
use resource_action_operator.Prelude.{
  ℕ, String, Option, none, some, List, [], ◌∷◌, ◌++◌, Result, ok, err, Check, Error,
}
use resource_action_operator.Prelude.Int.{ℤ, pos, add64}
use resource_action_operator.Api.{ResourceAction, ResourceActionStatus, ExecutionRecord, Condition}
use resource_action_operator.Std.{Std}
use resource_action_operator.Runtime.{Runtime, Io, lift, continue, ◌>>=◌}
use resource_action_operator.Matching.{MatchInput, event_text}
use resource_action_operator.Conditions.{set_condition}
use resource_action_operator.Executor.Actions.{Totals}

unfoldable pub exec_record : MatchInput → ℕ → Totals → ExecutionRecord
unfolding add64 event_text
exec_record input now t = record {
  resource_uid = input.obj.uid;
  event = event_text input.event;
  executed_at = now;
  action_count = pos t.executed_actions;
  attempts = t.attempts;
  retry_count = add64 t.network_retries t.status_retries;
  network_retry_count = t.network_retries;
  status_retry_count = t.status_retries;
  backoff_millis = t.backoff_millis;
  duration_millis = t.duration_millis;
  last_http_status = pos t.last_http_status;
  job = t.last_job_details;
}

-- The condition of a run that failed with this text.
abbrev pub failed_condition : String → Condition
failed_condition text = record {
  type = "Ready";
  status = "False";
  observed_generation = pos 0;
  last_transition_time = none;
  reason = "ActionFailed";
  message = text;
}

abbrev pub succeeded_condition : Condition
succeeded_condition = record {
  type = "Ready";
  status = "True";
  observed_generation = pos 0;
  last_transition_time = none;
  reason = "ActionSucceeded";
  message = "All actions executed successfully";
}

-- `latest` with the record appended, and the error of the run.
abbrev pub with_execution : ResourceAction → ExecutionRecord → String → ResourceAction
with_execution latest exec last_error = record latest {
  status = record latest.status {
    executions = latest.status.executions ++ exec ∷ [];
    last_error = last_error;
  };
}

-- What the closure makes of the latest version, at a time.
unfoldable pub record_run : Std → ExecutionRecord → Check → ℕ → ResourceAction → ResourceAction
unfolding set_condition
record_run std exec (err e) now latest =
    set_condition now (with_execution latest exec (std.error_text e))
      (failed_condition (std.error_text e))
record_run std exec (ok _) now latest =
    set_condition now (with_execution latest exec "") succeeded_condition

module _ {W : Type 0} (std : Std) (rt : Runtime W) where
  -- One call of the closure.
  unfoldable pub update_once : ResourceAction → ExecutionRecord → Check → W → Check × W
  unfolding record_run
  update_once ra exec result = do
    latest ← rt.get_action ra.name ra.namespace
    now ← (λ w. let (t, w') = rt.clock w in (ok t, w'))
    rt.update_status (record_run std exec result now latest)
