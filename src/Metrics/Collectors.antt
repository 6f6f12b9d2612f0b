-- ===== src/Metrics/Collectors.antt =====
-- The Prometheus collectors of the engine (internal/engine/metrics.go).
use resource_action_operator.Prelude.{String, List, [], ◌∷◌}
use resource_action_operator.Prelude.Int.{ℤ}

-- prometheus.NewCounter and NewCounterVec, or NewHistogramVec with prometheus.DefBuckets.
pub data CollectorKind : Type 0 where
  counter histogram : CollectorKind

pub record Collector : Type 0 where
  pub kind : CollectorKind
  pub name : String
  pub help : String
  pub labels : List String

-- A float64: `float64(n)`, or `float64(n) / 1000.0`.
pub data Amount : Type 0 where
  units thousandths : ℤ → Amount

abbrev pub http_runs_total : Collector
http_runs_total = record {
  kind = counter;
  name = "resource_action_operator_http_runs_total";
  help = "Total number of ResourceAction HTTP execution runs by result.";
  labels = "result" ∷ [];
}

abbrev pub http_actions_total : Collector
http_actions_total = record {
  kind = counter;
  name = "resource_action_operator_http_actions_total";
  help = "Total number of HTTP actions executed.";
  labels = [];
}

abbrev pub http_attempts_total : Collector
http_attempts_total = record {
  kind = counter;
  name = "resource_action_operator_http_attempts_total";
  help = "Total number of HTTP attempts across all actions.";
  labels = [];
}

abbrev pub http_retries_total : Collector
http_retries_total = record {
  kind = counter;
  name = "resource_action_operator_http_retries_total";
  help = "Total number of HTTP retries by retry type.";
  labels = "type" ∷ [];
}

abbrev pub http_backoff_seconds_total : Collector
http_backoff_seconds_total = record {
  kind = counter;
  name = "resource_action_operator_http_backoff_seconds_total";
  help = "Accumulated HTTP backoff time in seconds.";
  labels = [];
}

abbrev pub http_duration_seconds : Collector
http_duration_seconds = record {
  kind = histogram;
  name = "resource_action_operator_http_duration_seconds";
  help = "Distribution of HTTP execution duration per ResourceAction run.";
  labels = "result" ∷ [];
}

abbrev pub http_last_status_total : Collector
http_last_status_total = record {
  kind = counter;
  name = "resource_action_operator_http_last_status_total";
  help = "Count of observed final HTTP status classes.";
  labels = "class" ∷ [];
}

abbrev pub job_runs_total : Collector
job_runs_total = record {
  kind = counter;
  name = "resource_action_operator_job_runs_total";
  help = "Total number of ResourceAction job execution runs by result.";
  labels = "result" ∷ [];
}

abbrev pub job_duration_seconds : Collector
job_duration_seconds = record {
  kind = histogram;
  name = "resource_action_operator_job_duration_seconds";
  help = "Distribution of job execution durations per ResourceAction run.";
  labels = "result" ∷ [];
}

abbrev pub job_log_tail_lines_total : Collector
job_log_tail_lines_total = record {
  kind = counter;
  name = "resource_action_operator_job_log_tail_lines_total";
  help = "Total number of persisted job log tail lines.";
  labels = [];
}

-- What initEngineMetrics registers, in its order.
abbrev pub engine_collectors : List Collector
engine_collectors =
    http_runs_total ∷ http_actions_total ∷ http_attempts_total ∷ http_retries_total
    ∷ http_backoff_seconds_total ∷ http_duration_seconds ∷ http_last_status_total ∷ job_runs_total
    ∷ job_duration_seconds ∷ job_log_tail_lines_total ∷ []
