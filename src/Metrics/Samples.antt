-- ===== src/Metrics/Samples.antt =====
-- What the collectors have received after a number of runs (observeHTTPExecution of
-- internal/engine/metrics.go).
use mathlib.Core.List.{append-nil, append_assoc}
use resource_action_operator.Prelude.{
  ℕ, ◌≡◌, refl, sym, ap, ◌∙◌, inl, inr, String, List, [], ◌∷◌, ◌++◌, map, All, arith, Bool, true,
  false, ◌&&◌, ◌==◌, ltb, Bool-cases, if◌then◌else◌,
}
use resource_action_operator.Prelude.Int.{ℤ, pos, negsuc}
use resource_action_operator.Runtime.{Runtime, RunFigures}
use resource_action_operator.Metrics.{
  status_class, init_engine_metrics, count_last_status, observe_http_execution,
}
use resource_action_operator.Metrics.Collectors.{
  Collector, Amount, units, thousandths, http_runs_total, http_actions_total, http_attempts_total,
  http_retries_total, http_backoff_seconds_total, http_duration_seconds, http_last_status_total,
  engine_collectors,
}

abbrev pub same_labels : List String → List String → Bool
same_labels [] [] = true
same_labels (a ∷ as') (b ∷ bs) = a == b && same_labels as' bs
same_labels _ _ = false

-- What a series receives of an amount for the series of `c'` with the labels `labels'`.
abbrev pub received : Collector → List String → Collector → List String → Amount → List Amount
received c labels c' labels' amount =
    if c.name == c'.name && same_labels labels labels' then amount ∷ [] else []

-- An amount that a counter takes: Add panics for a negative one.
abbrev pub NotNegative : ℤ → Type 0
NotNegative (pos n) = Unit
NotNegative (negsuc n) = ⊥

abbrev pub CanBeAdded : Amount → Type 0
CanBeAdded (units n) = NotNegative n
CanBeAdded (thousandths n) = NotNegative n

module _ {W : Type 0} (rt : Runtime W) where
  -- What the client library promises: a collector keeps, for each values of its labels, the amounts
  -- that it was given, an Inc being 1, and an Add being one that is not negative; the registration
  -- gives none.
  pub record IsRecorder (samples : Collector → List String → W → List Amount) : Type 0 where
    pub metrics_init :
        (c : Collector) (labels : List String) (f : W → W) (w : W)
        → ((v : W) → samples c labels (f v) ≡ samples c labels v)
        → samples c labels (rt.metrics_init f w) ≡ samples c labels w
    pub must_register :
        (c : Collector) (labels : List String) (collectors : List Collector) (w : W)
        → samples c labels (rt.must_register collectors w) ≡ samples c labels w
    pub inc :
        (c : Collector) (labels : List String) (c' : Collector) (labels' : List String) (w : W)
        → samples c labels (rt.inc c' labels' w)
          ≡ samples c labels w ++ received c labels c' labels' (units (pos 1))
    pub add :
        (c : Collector) (labels : List String) (c' : Collector) (labels' : List String)
        (amount : Amount)
        → CanBeAdded amount
        → (w : W)
        → samples c labels (rt.add c' labels' amount w)
          ≡ samples c labels w ++ received c labels c' labels' amount
    pub observe :
        (c : Collector) (labels : List String) (c' : Collector) (labels' : List String)
        (amount : Amount) (w : W)
        → samples c labels (rt.observe c' labels' amount w)
          ≡ samples c labels w ++ received c labels c' labels' amount

pub record HttpRun : Type 0 where
  pub result : String
  pub figures : RunFigures

-- The figures of a run that are added to counters.
pub record IsCountable (run : HttpRun) : Type 0 where
  pub attempts : NotNegative run.figures.attempts
  pub network_retry_count : NotNegative run.figures.network_retry_count
  pub status_retry_count : NotNegative run.figures.status_retry_count
  pub backoff_millis : NotNegative run.figures.backoff_millis

abbrev pub observe_runs : {W : Type 0} → Runtime W → List HttpRun → W → W
observe_runs rt [] w = w
observe_runs rt (run ∷ runs) w =
    observe_runs rt runs (observe_http_execution rt run.result run.figures w)

-- The amounts of all runs, one run after the other.
abbrev pub gather : (HttpRun → List Amount) → List HttpRun → List Amount
gather given [] = []
gather given (run ∷ runs) = given run ++ gather given runs

gather-map :
    (f : HttpRun → Amount) (runs : List HttpRun) → gather (λ run. f run ∷ []) runs ≡ map f runs
gather-map f [] = refl
gather-map f (run ∷ runs) = ap (λ l. f run ∷ l) (gather-map f runs)

abbrev pub if_same : String → String → Amount → List Amount
if_same label own amount = if label == own then amount ∷ [] else []

-- Each collector of the HTTP runs has received the figures of every run, in their order and nothing
-- else; `label` is any result or class.
abbrev pub Received :
    String
    → List HttpRun
    → (Collector → List String → List Amount)
    → (Collector → List String → List Amount)
    → Type 0
Received label runs before after =
    (after http_runs_total (label ∷ [])
      ≡ before http_runs_total (label ∷ [])
        ++ gather (λ run. if_same label run.result (units (pos 1))) runs)
    × (after http_actions_total []
        ≡ before http_actions_total [] ++ map (λ run. units (pos run.figures.action_count)) runs)
    × (after http_attempts_total []
        ≡ before http_attempts_total [] ++ map (λ run. units run.figures.attempts) runs)
    × (after http_retries_total ("network" ∷ [])
        ≡ before http_retries_total ("network" ∷ [])
          ++ map (λ run. units run.figures.network_retry_count) runs)
    × (after http_retries_total ("status" ∷ [])
        ≡ before http_retries_total ("status" ∷ [])
          ++ map (λ run. units run.figures.status_retry_count) runs)
    × (after http_backoff_seconds_total []
        ≡ before http_backoff_seconds_total []
          ++ map (λ run. thousandths run.figures.backoff_millis) runs)
    × (after http_duration_seconds (label ∷ [])
        ≡ before http_duration_seconds (label ∷ [])
          ++ gather (λ run. if_same label run.result (thousandths run.figures.duration_millis))
              runs)
    × (after http_last_status_total (label ∷ [])
        ≡ before http_last_status_total (label ∷ [])
          ++ gather
              (λ run.
                let status = run.figures.last_http_status in
                if ltb 0 status
                then if_same label (status_class (pos status)) (units (pos 1))
                else [])
              runs)

module _ {W : Type 0} (rt : Runtime W) (samples : Collector → List String → W → List Amount)
    (recorder : IsRecorder rt samples) where
  module _ (c : Collector) (labels : List String) where
    abbrev by_status : ℕ → List Amount
    by_status status =
        if ltb 0 status
        then received c labels http_last_status_total (status_class (pos status) ∷ [])
            (units (pos 1))
        else []

    -- What one run adds to a series.
    abbrev by_run : HttpRun → List Amount
    by_run run =
        let f = run.figures in
        received c labels http_runs_total (run.result ∷ []) (units (pos 1))
        ++ (received c labels http_actions_total [] (units (pos f.action_count))
            ++ (received c labels http_attempts_total [] (units f.attempts)
                ++ (received c labels http_retries_total ("network" ∷ [])
                      (units f.network_retry_count)
                    ++ (received c labels http_retries_total ("status" ∷ [])
                          (units f.status_retry_count)
                        ++ (received c labels http_backoff_seconds_total []
                              (thousandths f.backoff_millis)
                            ++ (received c labels http_duration_seconds (run.result ∷ [])
                                  (thousandths f.duration_millis)
                                ++ by_status f.last_http_status))))))

    init_samples : (w : W) → samples c labels (init_engine_metrics rt w) ≡ samples c labels w
    unfolding init_engine_metrics
    init_samples w =
        recorder.metrics_init c labels _ w (recorder.must_register c labels engine_collectors)

    status_samples :
        (status : ℕ) (w : W)
        → samples c labels (count_last_status rt status w) ≡ samples c labels w ++ by_status status
    unfolding count_last_status
    status_samples status w = elim (Bool-cases (ltb 0 status)) [
      | inl some' ↦
          rw some' (recorder.inc c labels http_last_status_total (status_class (pos status) ∷ []) w)
      | inr none' ↦ rw none' (sym (append-nil (samples c labels w)))
    ]

    run_samples :
        (run : HttpRun) (w : W)
        → IsCountable run
        → samples c labels (observe_http_execution rt run.result run.figures w)
          ≡ samples c labels w ++ by_run run
    unfolding observe_http_execution
    run_samples run w ok =
        let f = run.figures in
        simp (
          status_samples,
          recorder.inc,
          recorder.observe,
          init_samples,
          append_assoc,
          recorder.add c labels http_actions_total [] (units (pos f.action_count)) tt,
          recorder.add c labels http_attempts_total [] (units f.attempts) ok.attempts,
          recorder.add c labels http_retries_total ("network" ∷ []) (units f.network_retry_count)
              ok.network_retry_count,
          recorder.add c labels http_retries_total ("status" ∷ []) (units f.status_retry_count)
              ok.status_retry_count,
          recorder.add c labels http_backoff_seconds_total [] (thousandths f.backoff_millis)
              ok.backoff_millis,
        )

    runs_samples :
        (given : HttpRun → List Amount)
        → ((run : HttpRun) → by_run run ≡ given run)
        → (runs : List HttpRun) (w : W) → All IsCountable runs
        → samples c labels (observe_runs rt runs w) ≡ samples c labels w ++ gather given runs
    runs_samples given same [] w ok = sym (append-nil (samples c labels w))
    runs_samples given same (run ∷ runs) w ok =
        runs_samples given same runs _ ok.1
        ∙ ap (λ l. l ++ gather given runs)
            (run_samples run w ok.0 ∙ ap (λ l. samples c labels w ++ l) (same run))
        ∙ append_assoc (samples c labels w) (given run) (gather given runs)

  figure_samples :
      (c : Collector) (labels : List String) (f : HttpRun → Amount)
      → ((run : HttpRun) → by_run c labels run ≡ f run ∷ [])
      → (runs : List HttpRun) (w : W) → All IsCountable runs
      → samples c labels (observe_runs rt runs w) ≡ samples c labels w ++ map f runs
  figure_samples c labels f same runs w ok =
      runs_samples c labels (λ run. f run ∷ []) same runs w ok
      ∙ ap (λ l. samples c labels w ++ l) (gather-map f runs)

  -- After a number of runs whose attempts, retries and waits are not negative, each collector of the HTTP runs has received the figures of every run, in
  -- their order and nothing else: one for each run of a result, the numbers of the actions, of the
  -- attempts and of the retries for the network and for a status, the waits, the durations of the
  -- runs of a result, and one for each run whose last status is of a class, where there was a status.
  pub observe_runs_samples :
      (runs : List HttpRun) (w : W) (label : String)
      → All IsCountable runs
      → Received label runs
          (λ c labels. samples c labels w)
          (λ c labels. samples c labels (observe_runs rt runs w))
  observe_runs_samples runs w label ok = (
    runs_samples http_runs_total (label ∷ []) _ (λ run. ground arith) runs w ok,
    figure_samples http_actions_total [] _ (λ run. ground arith) runs w ok,
    figure_samples http_attempts_total [] _ (λ run. ground arith) runs w ok,
    figure_samples http_retries_total ("network" ∷ []) _ (λ run. ground arith) runs w ok,
    figure_samples http_retries_total ("status" ∷ []) _ (λ run. ground arith) runs w ok,
    figure_samples http_backoff_seconds_total [] _ (λ run. ground arith) runs w ok,
    runs_samples http_duration_seconds (label ∷ []) _ (λ run. ground arith) runs w ok,
    runs_samples http_last_status_total (label ∷ []) _ (λ run. ground arith) runs w ok,
  )
