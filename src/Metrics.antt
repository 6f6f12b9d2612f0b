-- ===== src/Metrics.antt =====
-- What a run and a finished Job add to the Prometheus collectors (internal/engine/metrics.go).
pub mod Collectors
pub mod Frame
pub mod Samples
pub mod Once
use Prim.Native.String.{◌++◌}
use resource_action_operator.Prelude.{
  ℕ, ◌/◌, String, List, [], ◌∷◌, Bool, true, false, ◌||◌, ltb, if◌then◌else◌,
}
use resource_action_operator.Prelude.Int.{ℤ, pos, negsuc, ltb_ℤ}
use resource_action_operator.Prelude.Text.{itoa}
use resource_action_operator.Runtime.{Runtime, RunFigures}
use resource_action_operator.Metrics.Collectors.{
  Collector, units, thousandths, http_runs_total, http_actions_total, http_attempts_total,
  http_retries_total, http_backoff_seconds_total, http_duration_seconds, http_last_status_total,
  job_runs_total, job_duration_seconds, job_log_tail_lines_total, engine_collectors,
}

-- `fmt.Sprintf("%dxx", status/100)` of a status from 100 to 999.
abbrev pub class_of : ℤ → String
class_of (pos status) = itoa (status / 100) ++ "xx"
class_of (negsuc n) = "unknown"

unfoldable pub status_class : ℤ → String
status_class status =
    if ltb_ℤ status (pos 100) || ltb_ℤ (pos 999) status then "unknown" else class_of status

module _ {W : Type 0} (rt : Runtime W) where
  unfoldable pub init_engine_metrics : W → W
  init_engine_metrics w = rt.metrics_init (rt.must_register engine_collectors) w

  -- The class of the last status is counted only where there was a status.
  unfoldable pub count_last_status : ℕ → W → W
  count_last_status status w =
      if ltb 0 status then rt.inc http_last_status_total (status_class (pos status) ∷ []) w else w

  unfoldable pub observe_http_execution : String → RunFigures → W → W
  unfolding init_engine_metrics count_last_status
  observe_http_execution result figures w0 =
      let w1 = init_engine_metrics w0 in
      let w2 = rt.inc http_runs_total (result ∷ []) w1 in
      let w3 = rt.add http_actions_total [] (units (pos figures.action_count)) w2 in
      let w4 = rt.add http_attempts_total [] (units figures.attempts) w3 in
      let w5 = rt.add http_retries_total ("network" ∷ []) (units figures.network_retry_count) w4 in
      let w6 = rt.add http_retries_total ("status" ∷ []) (units figures.status_retry_count) w5 in
      let w7 = rt.add http_backoff_seconds_total [] (thousandths figures.backoff_millis) w6 in
      let w8 =
        rt.observe http_duration_seconds (result ∷ []) (thousandths figures.duration_millis) w7 in
      count_last_status figures.last_http_status w8

  unfoldable pub observe_job_execution : String → ℤ → ℕ → W → W
  unfolding init_engine_metrics
  observe_job_execution result duration_millis log_tail_lines w0 =
      let w1 = init_engine_metrics w0 in
      let w2 = rt.inc job_runs_total (result ∷ []) w1 in
      let w3 = rt.observe job_duration_seconds (result ∷ []) (thousandths duration_millis) w2 in
      rt.add job_log_tail_lines_total [] (units (pos log_tail_lines)) w3
