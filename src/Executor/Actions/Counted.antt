-- ===== src/Executor/Actions/Counted.antt =====
-- Which actions of a ResourceAction a run executes (Execute of internal/engine/executor.go).
use mathlib.Core.Path.{fun_ext}
use resource_action_operator.Prelude.{
  ℕ, suc, ◌+◌, ◌≤◌, ◌<◌, ◌≡◌, refl, ap, ◌∙◌, arith, List, [], ◌∷◌, Bool-cases, inl, inr, ok, err,
  Check, length, if◌then◌else◌,
}
use resource_action_operator.Api.{ResourceAction, ActionSpec}
use resource_action_operator.Std.{Std}
use resource_action_operator.Runtime.{Runtime}
use resource_action_operator.Matching.{MatchInput}
use resource_action_operator.Validation.Spec.{is_scheduled}
use resource_action_operator.Http.Attempts.{HttpExecutionMetrics}
use resource_action_operator.Executor.Actions.{
  Totals, add_metrics, execute_action, after_action, run_actions,
}

-- The actions that are not scheduled, each with its index.
abbrev pub pending : ℕ → List ActionSpec → List (ℕ × ActionSpec)
pending i [] = []
pending i (action ∷ actions) =
    if is_scheduled action then pending (suc i) actions else (i, action) ∷ pending (suc i) actions

-- How many actions were executed, given how many there were before, and how the run ended.
abbrev pub RunCounts : ℕ → ℕ → Totals × Check → Type 0
RunCounts before todo (t, ok _) = t.executed_actions ≡ before + todo
RunCounts before todo (t, err e) =
    (before < t.executed_actions) × (t.executed_actions ≤ before + todo)

module _ {W : Type 0} (std : Std) (rt : Runtime W) (ra : ResourceAction) (input : MatchInput) where
  -- The reference: execute the actions in order, and stop at the first error.
  abbrev then_or_stop :
      (Totals → W → (Totals × Check) × W)
      → Totals
      → (HttpExecutionMetrics × Check) × W
      → (Totals × Check) × W
  then_or_stop rest t ((m, ok _), w) = rest (add_metrics t m) w
  then_or_stop rest t ((m, err e), w) = ((add_metrics t m, err e), w)

  unfoldable pub run_pending : List (ℕ × ActionSpec) → Totals → W → (Totals × Check) × W
  run_pending [] t w = ((t, ok tt), w)
  run_pending ((i, action) ∷ actions) t w =
      then_or_stop (run_pending actions) t (execute_action std rt ra input i action w)

  -- The loop stops where the reference does.
  after_action-eq-then_or_stop :
      (rest : Totals → W → (Totals × Check) × W) (t : Totals)
      (p : (HttpExecutionMetrics × Check) × W)
      → after_action std rt ra input rest t p ≡ then_or_stop rest t p
  after_action-eq-then_or_stop rest t ((m, ok _), w) = refl
  after_action-eq-then_or_stop rest t ((m, err e), w) = refl

  -- The loop executes exactly the actions that are not scheduled, in their order and with their
  -- indices, up to and with the first one that fails.
  pub run_actions-eq-run_pending :
      (i : ℕ) (actions : List ActionSpec)
      → run_actions std rt ra input i actions ≡ run_pending (pending i actions)
  unfolding run_actions run_pending
  run_actions-eq-run_pending i [] = refl
  run_actions-eq-run_pending i (action ∷ actions) = fun_ext λ t. fun_ext λ w.
      elim (Bool-cases (is_scheduled action)) [
        | inl skipped ↦
            rw skipped (ap (λ run. run t w) (run_actions-eq-run_pending (suc i) actions))
        | inr executed ↦ rw executed (
            ap
              (λ run.
                after_action std rt ra input run t (execute_action std rt ra input i action w))
              (run_actions-eq-run_pending (suc i) actions)
            ∙ after_action-eq-then_or_stop (run_pending (pending (suc i) actions)) t
                (execute_action std rt ra input i action w))
      ]

  then_or_stop_counts :
      (next : Totals → W → (Totals × Check) × W) (t : Totals) (todo : ℕ) (m : HttpExecutionMetrics)
      (r : Check) (w : W)
      → ((t' : Totals) (w' : W) → RunCounts t'.executed_actions todo (next t' w').0)
      → RunCounts t.executed_actions (suc todo) (then_or_stop next t ((m, r), w)).0
  unfolding add_metrics
  then_or_stop_counts next t todo m (err e) w rest = (omega arith, omega arith)
  then_or_stop_counts next t todo m (ok _) w rest =
      widen (next (add_metrics t m) w) (rest (add_metrics t m) w)
    where
      widen :
          (p : (Totals × Check) × W)
          → RunCounts (t.executed_actions + 1) todo p.0
          → RunCounts t.executed_actions (suc todo) p.0
      widen ((t', ok _), w') h = omega arith
      widen ((t', err e), w') h = (omega arith, omega arith)

  run_pending_counts :
      (actions : List (ℕ × ActionSpec)) (t : Totals) (w : W)
      → RunCounts t.executed_actions (length actions) (run_pending actions t w).0
  unfolding run_pending
  run_pending_counts [] t w = omega arith
  run_pending_counts ((i, action) ∷ actions) t w =
      let ((m, r), w') = execute_action std rt ra input i action w in
      then_or_stop_counts (run_pending actions) t (length actions) m r w'
        (run_pending_counts actions)

  -- A run without an error counts every action that is not scheduled; a run that ends with an error
  -- counts at least one, and no more than there are.
  pub run_actions_counts :
      (i : ℕ) (actions : List ActionSpec) (t : Totals) (w : W)
      → RunCounts t.executed_actions
          (length (pending i actions))
          (run_actions std rt ra input i actions t w).0
  run_actions_counts i actions t w =
      rw (run_actions-eq-run_pending i actions) (run_pending_counts (pending i actions) t w)
