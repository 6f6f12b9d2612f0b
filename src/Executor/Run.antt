-- ===== src/Executor/Run.antt =====
-- Execute (internal/engine/executor.go).
pub mod Effects
pub mod Step
pub mod Settled
pub mod Later
pub mod Once
use resource_action_operator.Prelude.{
  ℕ, String, Option, none, some, List, [], ◌∷◌, Bool, not, ◌&&◌, ◌||◌, ltb, Result, ok, err, Check,
  Error, if◌then◌else◌,
}
use resource_action_operator.Prelude.Int.{ℤ, pos, ltb_ℤ}
use resource_action_operator.Api.{ResourceAction, ExecutionRecord}
use resource_action_operator.Std.{Std}
use resource_action_operator.Runtime.{Runtime, RunFigures, Io, continue, ◌>>=◌}
use resource_action_operator.Matching.{MatchInput, event_text, concerns, already_executed}
use resource_action_operator.Executor.Actions.{Totals, no_totals, run_actions}
use resource_action_operator.Executor.Status.{exec_record, update_once}
use resource_action_operator.Executor.Event.{event_message}
use resource_action_operator.Metrics.{observe_http_execution}

abbrev pub figures : Totals → RunFigures
figures t = record {
  action_count = t.executed_actions;
  attempts = t.attempts;
  network_retry_count = t.network_retries;
  status_retry_count = t.status_retries;
  backoff_millis = t.backoff_millis;
  duration_millis = t.duration_millis;
  last_http_status = t.last_http_status;
}

module _ {W : Type 0} (std : Std) (rt : Runtime W) (has_recorder : Bool) (input : MatchInput) where
  -- emitEvent: nothing without a recorder.
  unfoldable pub emit_event :
      ResourceAction → String → String → ExecutionRecord → Option Error → W → W
  unfolding event_message
  emit_event ra event_type reason exec e w =
      if has_recorder then rt.record_event ra event_type reason (event_message std exec e) w else w

  -- `totalAttempts > 0 || lastHTTPStatus > 0 || totalDurationMillis > 0`
  abbrev pub has_figures : Totals → Bool
  has_figures t =
      ltb_ℤ (pos 0) t.attempts || ltb 0 t.last_http_status || ltb_ℤ (pos 0) t.duration_millis

  unfoldable pub succeeded :
      ResourceAction → ExecutionRecord → Totals → (W → Check × W) → W → Check × W
  unfolding emit_event
  succeeded ra exec t next w = next (
      emit_event ra "Normal" "ActionSucceeded" exec none
        (if has_figures t then observe_http_execution rt "success" (figures t) w else w))

  -- The end of the body of the loop, once the status is updated; `next` is the rest of the loop.
  unfoldable pub report :
      ResourceAction → ExecutionRecord → Totals → (W → Check × W) → Check → W → Check × W
  unfolding emit_event succeeded
  report ra exec t next (err e) w =
      if ltb 0 t.executed_actions
      then (
        err e,
        emit_event ra "Warning" "ActionFailed" exec (some e)
            (observe_http_execution rt "failure" (figures t) w),
      )
      else succeeded ra exec t next w
  report ra exec t next (ok _) w = succeeded ra exec t next w

  abbrev pub after_update :
      ResourceAction → ExecutionRecord → Totals → (W → Check × W) → Check → Check × W → Check × W
  after_update ra exec t next result (err e, w) = (err e, w)
  after_update ra exec t next result (ok _, w) = report ra exec t next result w

  -- The body of the loop behind the actions.
  unfoldable pub after_actions : ResourceAction → (W → Check × W) → Totals → Check → W → Check × W
  after_actions ra next t result w =
      if t.executed_any
      then (let (now, w') = rt.clock w in
          let exec = exec_record input now t in
          after_update ra exec t next result
            (rt.retry_on_conflict (update_once std rt ra exec result) w'))
      else next w

  unfoldable pub execute_one : ResourceAction → (W → Check × W) → W → Check × W
  execute_one ra next w =
      if not (concerns std ra input)
        || already_executed ra.status.executions input.obj.uid (event_text input.event)
      then next w
      else (let ((t, result), w') = run_actions std rt ra input 0 ra.spec.actions no_totals w in
          after_actions ra next t result w')

  -- The loop over the listed ResourceActions.
  unfoldable pub execute_all : List ResourceAction → W → Check × W
  execute_all [] w = (ok tt, w)
  execute_all (ra ∷ ras) w = execute_one ra (execute_all ras) w

  unfoldable pub execute : W → Check × W
  unfolding execute_all execute_one concerns already_executed run_actions after_actions report
      exec_record update_once
  execute = do ras ← rt.list_actions; execute_all ras
