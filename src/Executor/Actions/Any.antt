-- ===== src/Executor/Actions/Any.antt =====
-- A run that executed nothing had scheduled actions only (Execute of internal/engine/executor.go).
use resource_action_operator.Prelude.{
  ℕ, suc, ◌≡◌, refl, sym, ap, ◌∙◌, inl, inr, List, [], ◌∷◌, All, true, false, Bool-cases, ok, err,
  Check,
}
use resource_action_operator.Api.{ResourceAction, ActionSpec}
use resource_action_operator.Std.{Std}
use resource_action_operator.Runtime.{Runtime}
use resource_action_operator.Matching.{MatchInput}
use resource_action_operator.Validation.Spec.{is_scheduled}
use resource_action_operator.Http.Attempts.{HttpExecutionMetrics}
use resource_action_operator.Executor.Actions.{
  Totals, add_metrics, execute_action, after_action, run_actions,
}

module _ {W : Type 0} (std : Std) (rt : Runtime W) (ra : ResourceAction) (input : MatchInput) where
  after_action_any :
      (next : Totals → W → (Totals × Check) × W) (t : Totals) (m : HttpExecutionMetrics) (r : Check)
      (w : W)
      → ((t' : Totals) (w' : W) → t'.executed_any ≡ true → (next t' w').0.0.executed_any ≡ true)
      → (after_action std rt ra input next t ((m, r), w)).0.0.executed_any ≡ true
  unfolding add_metrics
  after_action_any next t m (err e) w h = refl
  after_action_any next t m (ok _) w h = h (add_metrics t m) w refl

  run_actions_any :
      (i : ℕ) (actions : List ActionSpec) (t : Totals) (w : W)
      → t.executed_any ≡ true
      → (run_actions std rt ra input i actions t w).0.0.executed_any ≡ true
  unfolding run_actions
  run_actions_any i [] t w h = h
  run_actions_any i (action ∷ actions) t w h = elim (Bool-cases (is_scheduled action)) [
    | inl skipped ↦ rw skipped (run_actions_any (suc i) actions t w h)
    | inr executed ↦ rw executed (
        let ((m, r), w') = execute_action std rt ra input i action w in
        after_action_any (run_actions std rt ra input (suc i) actions) t m r w'
          (run_actions_any (suc i) actions))
  ]

  executed_one :
      (i : ℕ) (action : ActionSpec) (actions : List ActionSpec) (t : Totals) (w : W)
      → is_scheduled action ≡ false
      → (run_actions std rt ra input i (action ∷ actions) t w).0.0.executed_any ≡ true
  unfolding run_actions
  executed_one i action actions t w executed = rw executed (
      let ((m, r), w') = execute_action std rt ra input i action w in
      after_action_any (run_actions std rt ra input (suc i) actions) t m r w'
        (run_actions_any (suc i) actions))

  skipped_one :
      (i : ℕ) (action : ActionSpec) (actions : List ActionSpec) (t : Totals) (w : W)
      → is_scheduled action ≡ true
      → run_actions std rt ra input i (action ∷ actions) t w
        ≡ run_actions std rt ra input (suc i) actions t w
  unfolding run_actions
  skipped_one i action actions t w skipped = rw skipped refl

  pub run_actions_none :
      (i : ℕ) (actions : List ActionSpec) (t : Totals) (w : W)
      → (run_actions std rt ra input i actions t w).0.0.executed_any ≡ false
      → All (λ a. is_scheduled a ≡ true) actions
  run_actions_none i [] t w h = tt
  run_actions_none i (action ∷ actions) t w h = elim (Bool-cases (is_scheduled action)) [
    | inl skipped ↦ (
      skipped,
      run_actions_none (suc i) actions t w
          (ap (λ p. p.0.0.executed_any) (sym (skipped_one i action actions t w skipped)) ∙ h),
    )
    | inr executed ↦ absurd (let any' = executed_one i action actions t w executed in cc)
  ]
