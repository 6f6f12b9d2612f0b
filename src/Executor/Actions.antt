-- ===== src/Executor/Actions.antt =====
-- executeAction, resolveHeaders and the loop over the actions of Execute
-- (internal/engine/executor.go).
pub mod Valid
pub mod Counted
pub mod Frame
pub mod Any
use resource_action_operator.Prelude.{
  ℕ, zero, suc, ◌+◌, String, Option, none, some, List, [], ◌∷◌, Bool, true, false, ◌==◌, ltb,
  Result, ok, err, Check, Error, unsupported_action_type, if◌then◌else◌,
}
use resource_action_operator.Prelude.Int.{ℤ, pos, add64}
use resource_action_operator.Api.{
  ResourceAction, ActionSpec, JobExecutionRecord, ValueFrom, SecretKeyRef,
}
use resource_action_operator.Std.{Std}
use resource_action_operator.Runtime.{Runtime, Io, pure, continue, ◌>>=◌}
use resource_action_operator.Matching.{MatchInput, lookup, value_or_empty}
use resource_action_operator.Validation.Spec.{is_scheduled}
use resource_action_operator.Http.Attempts.{HttpExecutionMetrics, no_metrics}
use resource_action_operator.Http.Execute.{execute_with_metrics}
use resource_action_operator.Jobs.Build.{secret_ref}
use resource_action_operator.Jobs.Execute.{JobExecutionMetrics, execute_job}

-- The variables of Execute that the loop over the actions sets.
pub record Totals : Type 0 where
  pub executed_any : Bool
  pub executed_actions : ℕ
  pub attempts : ℤ
  pub network_retries : ℤ
  pub status_retries : ℤ
  pub backoff_millis : ℤ
  pub duration_millis : ℤ
  pub last_http_status : ℕ
  pub last_job_details : Option JobExecutionRecord

abbrev pub no_totals : Totals
no_totals = record {
  executed_any = false;
  executed_actions = 0;
  attempts = pos 0;
  network_retries = pos 0;
  status_retries = pos 0;
  backoff_millis = pos 0;
  duration_millis = pos 0;
  last_http_status = 0;
  last_job_details = none;
}

abbrev pub newer {ℓ} : {A : Type ℓ} → Option A → Option A → Option A
newer none old = old
newer (some a) old = some a

unfoldable pub add_metrics : Totals → HttpExecutionMetrics → Totals
unfolding add64
add_metrics t m = record {
  executed_any = true;
  executed_actions = t.executed_actions + 1;
  attempts = add64 t.attempts (pos m.attempts);
  network_retries = add64 t.network_retries (pos m.network_retry_count);
  status_retries = add64 t.status_retries (pos m.status_retry_count);
  backoff_millis = add64 t.backoff_millis m.backoff_millis;
  duration_millis = add64 t.duration_millis m.duration_millis;
  last_http_status = if ltb 0 m.status_code then m.status_code else t.last_http_status;
  last_job_details = newer m.job t.last_job_details;
}

-- The metrics of a job, as those of an action.
abbrev pub of_job : JobExecutionMetrics → HttpExecutionMetrics
of_job m = record no_metrics {
  attempts = m.attempts;
  duration_millis = m.duration_millis;
  job = m.details;
}

module _ {W : Type 0} (std : Std) (rt : Runtime W) where
  abbrev pub header_value : String → Option SecretKeyRef → Io W (Option String)
  header_value namespace none = pure none
  header_value namespace (some ref) = do
    data_of ← rt.get_secret ref.name namespace
    pure (some (value_or_empty (lookup ref.key data_of)))

  abbrev pub with_header : String → Option String → List (String × String) → List (String × String)
  with_header key none rest = rest
  with_header key (some value) rest = (key, value) ∷ rest

  -- Only the headers with a reference to a Secret are resolved.
  unfoldable pub resolve_headers :
      List (String × ValueFrom) → String → Io W (List (String × String))
  resolve_headers [] namespace = pure []
  resolve_headers ((key, from) ∷ headers) namespace = do
    value ← header_value namespace from.secret_key_ref
    rest ← resolve_headers headers namespace
    pure (with_header key value rest)

  module _ (ra : ResourceAction) (input : MatchInput) where
    abbrev pub after_headers :
        ActionSpec → Result (List (String × String)) × W → (HttpExecutionMetrics × Check) × W
    after_headers action (err e, w) = ((no_metrics, err e), w)
    after_headers action (ok headers, w) =
        execute_with_metrics std rt action ra.namespace input.obj headers w

    -- The `switch` of executeAction.
    unfoldable pub execute_action : ℕ → ActionSpec → W → (HttpExecutionMetrics × Check) × W
    unfolding resolve_headers execute_with_metrics execute_job
    execute_action i action w =
        if action.type == "http"
        then after_headers action (resolve_headers action.headers ra.namespace w)
        else if action.type == "job"
        then (let ((m, r), w') = execute_job std rt ra input i action.type action.job w in
            ((of_job m, r), w'))
        else ((no_metrics, err (unsupported_action_type action.type)), w)

    -- The first error ends the loop.
    abbrev pub after_action :
        (Totals → W → (Totals × Check) × W)
        → Totals
        → (HttpExecutionMetrics × Check) × W
        → (Totals × Check) × W
    after_action next t ((m, err e), w) = ((add_metrics t m, err e), w)
    after_action next t ((m, ok _), w) = next (add_metrics t m) w

    -- Scheduled actions are left to the cron engine.
    abbrev pub one_action :
        (Totals → W → (Totals × Check) × W) → ℕ → ActionSpec → Totals → W → (Totals × Check) × W
    one_action next i action t w =
        if is_scheduled action then next t w else after_action next t (execute_action i action w)

    unfoldable pub run_actions : ℕ → List ActionSpec → Totals → W → (Totals × Check) × W
    unfolding execute_action
    run_actions i [] t w = ((t, ok tt), w)
    run_actions i (action ∷ actions) t w = one_action (run_actions (suc i) actions) i action t w
