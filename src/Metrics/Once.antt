-- ===== src/Metrics/Once.antt =====
-- The collectors are registered once (initEngineMetrics of internal/engine/metrics.go).
use resource_action_operator.Prelude.{
  ℕ, ◌≡◌, refl, ap, ◌∙◌, inl, inr, String, List, [], ◌∷◌, ◌++◌, Bool, true, false, ltb, Bool-cases,
}
use resource_action_operator.Prelude.Int.{ℤ, pos}
use resource_action_operator.Runtime.{Runtime, RunFigures}
use resource_action_operator.Metrics.{
  status_class, init_engine_metrics, count_last_status, observe_http_execution,
  observe_job_execution,
}
use resource_action_operator.Metrics.Collectors.{
  Collector, Amount, http_last_status_total, engine_collectors,
}

-- A call of observeHTTPExecution or of observeJobExecution.
pub data Observation : Type 0 where
  http_run : String → RunFigures → Observation
  job_run : String → ℤ → ℕ → Observation

abbrev pub observation : {W : Type 0} → Runtime W → Observation → W → W
observation rt (http_run result figures) w = observe_http_execution rt result figures w
observation rt (job_run result duration_millis lines) w =
    observe_job_execution rt result duration_millis lines w

abbrev pub observations : {W : Type 0} → Runtime W → List Observation → W → W
observations rt [] w = w
observations rt (o ∷ os) w = observations rt os (observation rt o w)

module _ {W : Type 0} (rt : Runtime W) (registry : W → List Collector × Bool) where
  -- `registry` is what is registered, and whether metricsInit is done. The first Do of a sync.Once
  -- calls its function and a later one does nothing; a use of a collector registers nothing.
  pub record IsOnce : Type 0 where
    pub first :
        (f : W → W) (w : W)
        → (registry w).1 ≡ false
        → registry (rt.metrics_init f w) ≡ ((registry (f w)).0, true)
    pub later : (f : W → W) (w : W) → (registry w).1 ≡ true → rt.metrics_init f w ≡ w
    pub must_register :
        (collectors : List Collector) (w : W)
        → registry (rt.must_register collectors w) ≡ ((registry w).0 ++ collectors, (registry w).1)
    pub inc :
        (c : Collector) (labels : List String) (w : W) → registry (rt.inc c labels w) ≡ registry w
    pub add :
        (c : Collector) (labels : List String) (amount : Amount) (w : W)
        → registry (rt.add c labels amount w) ≡ registry w
    pub observe :
        (c : Collector) (labels : List String) (amount : Amount) (w : W)
        → registry (rt.observe c labels amount w) ≡ registry w

module _ {W : Type 0} (rt : Runtime W) (registry : W → List Collector × Bool)
    (once : IsOnce rt registry) where
  init_first :
      (w : W)
      → (registry w).1 ≡ false
      → registry (init_engine_metrics rt w) ≡ ((registry w).0 ++ engine_collectors, true)
  unfolding init_engine_metrics
  init_first w fresh =
      once.first _ w fresh ∙ ap (λ p. (p.0, true)) (once.must_register engine_collectors w)

  init_later : (w : W) → (registry w).1 ≡ true → registry (init_engine_metrics rt w) ≡ registry w
  unfolding init_engine_metrics
  init_later w done = ap registry (once.later _ w done)

  count_last_status_registry :
      (status : ℕ) (w : W) → registry (count_last_status rt status w) ≡ registry w
  unfolding count_last_status
  count_last_status_registry status w = elim (Bool-cases (ltb 0 status)) [
    | inl some' ↦ rw some' (once.inc http_last_status_total (status_class (pos status) ∷ []) w)
    | inr none' ↦ rw none' refl
  ]

  -- Behind the registration an observation registers nothing.
  observation_registry :
      (o : Observation) (w : W)
      → registry (observation rt o w) ≡ registry (init_engine_metrics rt w)
  unfolding observe_http_execution observe_job_execution
  observation_registry (http_run result figures) w =
      count_last_status_registry figures.last_http_status _
      ∙ once.observe _ _ _ _
      ∙ once.add _ _ _ _
      ∙ once.add _ _ _ _
      ∙ once.add _ _ _ _
      ∙ once.add _ _ _ _
      ∙ once.add _ _ _ _
      ∙ once.inc _ _ _
  observation_registry (job_run result duration_millis lines) w =
      once.add _ _ _ _ ∙ once.observe _ _ _ _ ∙ once.inc _ _ _

  done_registry :
      (os : List Observation) (w : W)
      → (registry w).1 ≡ true
      → registry (observations rt os w) ≡ registry w
  done_registry [] w done = refl
  done_registry (o ∷ os) w done =
      let kept = observation_registry o w ∙ init_later w done in
      done_registry os (observation rt o w) (ap (λ p. p.1) kept ∙ done) ∙ kept

  -- From a start without a registration, however many runs and Jobs are observed (at least one), the
  -- collectors of the engine are registered exactly once, so that MustRegister never meets one twice.
  pub observations_registry :
      (o : Observation) (os : List Observation) (w : W)
      → (registry w).1 ≡ false
      → registry (observations rt (o ∷ os) w) ≡ ((registry w).0 ++ engine_collectors, true)
  observations_registry o os w fresh =
      let first = observation_registry o w ∙ init_first w fresh in
      done_registry os (observation rt o w) (ap (λ p. p.1) first) ∙ first
