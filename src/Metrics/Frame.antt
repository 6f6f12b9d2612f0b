-- ===== src/Metrics/Frame.antt =====
-- The collectors are no part of what the runs keep (internal/engine/metrics.go).
use resource_action_operator.Prelude.{ℕ, ◌≡◌, refl, ◌∙◌, inl, inr, String, [], ◌∷◌, ltb, Bool-cases}
use resource_action_operator.Prelude.Int.{ℤ, pos}
use resource_action_operator.Runtime.{Runtime, RunFigures}
use resource_action_operator.Runtime.Frame.{Keeps}
use resource_action_operator.Metrics.{
  status_class, init_engine_metrics, count_last_status, observe_http_execution,
  observe_job_execution,
}
use resource_action_operator.Metrics.Collectors.{
  http_runs_total, http_actions_total, http_attempts_total, http_retries_total,
  http_backoff_seconds_total, http_duration_seconds, http_last_status_total, job_runs_total,
  job_duration_seconds, job_log_tail_lines_total, engine_collectors,
}

module _ {W S : Type 0} (rt : Runtime W) (stored : W → S) (k : Keeps rt stored) where
  init_engine_metrics_keeps : (w : W) → stored (init_engine_metrics rt w) ≡ stored w
  unfolding init_engine_metrics
  init_engine_metrics_keeps w = k.metrics_init _ w (k.must_register engine_collectors)

  count_last_status_keeps : (status : ℕ) (w : W) → stored (count_last_status rt status w) ≡ stored w
  unfolding count_last_status
  count_last_status_keeps status w = elim (Bool-cases (ltb 0 status)) [
    | inl some' ↦ rw some' (k.inc http_last_status_total (status_class (pos status) ∷ []) w)
    | inr none' ↦ rw none' refl
  ]

  pub observe_http_execution_keeps :
      (result : String) (figures : RunFigures) (w : W)
      → stored (observe_http_execution rt result figures w) ≡ stored w
  unfolding observe_http_execution
  observe_http_execution_keeps result figures w =
      count_last_status_keeps figures.last_http_status _
      ∙ k.observe http_duration_seconds _ _ _
      ∙ k.add http_backoff_seconds_total _ _ _
      ∙ k.add http_retries_total _ _ _
      ∙ k.add http_retries_total _ _ _
      ∙ k.add http_attempts_total _ _ _
      ∙ k.add http_actions_total _ _ _
      ∙ k.inc http_runs_total _ _
      ∙ init_engine_metrics_keeps w

  pub observe_job_execution_keeps :
      (result : String) (duration_millis : ℤ) (log_tail_lines : ℕ) (w : W)
      → stored (observe_job_execution rt result duration_millis log_tail_lines w) ≡ stored w
  unfolding observe_job_execution
  observe_job_execution_keeps result duration_millis log_tail_lines w =
      k.add job_log_tail_lines_total _ _ _
      ∙ k.observe job_duration_seconds _ _ _
      ∙ k.inc job_runs_total _ _
      ∙ init_engine_metrics_keeps w
