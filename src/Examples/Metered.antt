-- ===== src/Examples/Metered.antt =====
-- The collectors of the concrete world (internal/engine/metrics.go), and waits that wrap around
-- (internal/engine/http_executor.go).
use mathlib.Core.List.{append-nil, append_assoc}
use resource_action_operator.Prelude.{
  ◌-◌, ◌*◌, ◌^◌, ◌≡◌, refl, sym, ap, ◌∙◌, String, List, [], ◌∷◌, ◌++◌, Bool, true, false, arith,
}
use resource_action_operator.Prelude.Int.{pos, negsuc}
use resource_action_operator.Prelude.Text.{itoa}
use resource_action_operator.Runtime.{RunFigures}
use resource_action_operator.Metrics.{status_class}
use resource_action_operator.Metrics.Collectors.{Collector, Amount, units, engine_collectors}
use resource_action_operator.Metrics.Samples.{
  received, IsRecorder, HttpRun, observe_runs, Received, observe_runs_samples,
}
use resource_action_operator.Metrics.Once.{
  http_run, job_run, observations, IsOnce, observations_registry,
}
use resource_action_operator.Http.Backoff.{backoff_sleep, second}
use resource_action_operator.Http.Backoff.Bounds.{backoff_sleep_negative}
use resource_action_operator.Examples.Sample.{Given, World, init_once, sample_runtime, start_world}

-- What the amounts of a world say of a series.
abbrev select : Collector → List String → List Given → List Amount
select c labels [] = []
select c labels (g ∷ given) =
    received c labels g.collector g.labels g.amount ++ select c labels given

abbrev sample_samples : Collector → List String → World → List Amount
sample_samples c labels w = select c labels w.given

select-append :
    (c : Collector) (labels : List String) (given : List Given) (g : Given)
    → select c labels (given ++ g ∷ [])
      ≡ select c labels given ++ received c labels g.collector g.labels g.amount
select-append c labels [] g = append-nil _
select-append c labels (x ∷ given) g =
    ap (λ l. received c labels x.collector x.labels x.amount ++ l) (select-append c labels given g)
    ∙ sym (append_assoc (received c labels x.collector x.labels x.amount) (select c labels given) _)

init_samples :
    (done : Bool) (c : Collector) (labels : List String) (f : World → World) (w : World)
    → ((v : World) → sample_samples c labels (f v) ≡ sample_samples c labels v)
    → sample_samples c labels (init_once done f w) ≡ sample_samples c labels w
init_samples true c labels f w keeps = refl
init_samples false c labels f w keeps = keeps w

sample-IsRecorder : IsRecorder sample_runtime sample_samples
sample-IsRecorder = record {
  metrics_init = λ c labels f w keeps. init_samples w.registered c labels f w keeps;
  must_register = λ c labels collectors w. refl;
  inc = λ c labels c' labels' w.
      select-append c labels w.given
        (record { collector = c'; labels = labels'; amount = units (pos 1) });
  add = λ c labels c' labels' amount can w.
      select-append c labels w.given (record { collector = c'; labels = labels'; amount = amount });
  observe = λ c labels c' labels' amount w.
      select-append c labels w.given (record { collector = c'; labels = labels'; amount = amount });
}

abbrev sample_registry : World → List Collector × Bool
sample_registry w = (w.collectors, w.registered)

init_first :
    (done : Bool) (f : World → World) (w : World)
    → done ≡ false
    → sample_registry (init_once done f w) ≡ ((f w).collectors, true)
init_first true f w h = cc
init_first false f w h = refl

init_later : (done : Bool) (f : World → World) (w : World) → done ≡ true → init_once done f w ≡ w
init_later true f w h = refl
init_later false f w h = cc

sample-IsOnce : IsOnce sample_runtime sample_registry
sample-IsOnce = record {
  first = λ f w h. init_first w.registered f w h;
  later = λ f w h. init_later w.registered f w h;
  must_register = λ collectors w. refl;
  inc = λ c labels w. refl;
  add = λ c labels amount w. refl;
  observe = λ c labels amount w. refl;
}

abbrev sample_figures : RunFigures
sample_figures = record {
  action_count = 2;
  attempts = pos 3;
  network_retry_count = pos 0;
  status_retry_count = pos 1;
  backoff_millis = pos 500;
  duration_millis = pos 700;
  last_http_status = 204;
}

abbrev sample_runs : List HttpRun
sample_runs =
    record { result = "success"; figures = sample_figures }
    ∷ record { result = "failure"; figures = record sample_figures { last_http_status = 0 } }
    ∷ []

status_class_204 : status_class (pos 204) ≡ "2xx"
unfolding status_class itoa
status_class_204 = refl

observe_runs_samples_example :
    Received "success" sample_runs
      (λ c labels. sample_samples c labels start_world)
      (λ c labels. sample_samples c labels (observe_runs sample_runtime sample_runs start_world))
observe_runs_samples_example =
    observe_runs_samples sample_runtime sample_samples sample-IsRecorder sample_runs start_world
      "success"
      (
        record {
          attempts = tt;
          network_retry_count = tt;
          status_retry_count = tt;
          backoff_millis = tt;
        },
        (
          record {
            attempts = tt;
            network_retry_count = tt;
            status_retry_count = tt;
            backoff_millis = tt;
          },
          tt,
        ),
      )

observations_registry_example :
    sample_registry (
      observations sample_runtime
        (http_run "success" sample_figures ∷ job_run "failure" (pos 90) 10 ∷ [])
        start_world)
    ≡ ([] ++ engine_collectors, true)
observations_registry_example =
    observations_registry sample_runtime sample_registry sample-IsOnce
      (http_run "success" sample_figures) (job_run "failure" (pos 90) 10 ∷ []) start_world refl

-- A base of half a second, at the 36th attempt.
backoff_sleep_negative_example :
    backoff_sleep (λ n. 0) (pos 500_000_000) (pos (10 * second)) 36
    ≡ negsuc (2 ^ 64 - 1 - 500_000_000 * 2 ^ 35)
backoff_sleep_negative_example =
    backoff_sleep_negative (λ n. 0) 500_000_000 (10 * second) 35 (omega arith) (omega arith)
      (omega arith)
