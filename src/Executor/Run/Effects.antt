-- ===== src/Executor/Run/Effects.antt =====
-- Which ResourceActions an event leaves alone (Execute of internal/engine/executor.go).
use resource_action_operator.Prelude.{
  ℕ, suc, ◌≡◌, refl, ◌∙◌, ◌⊎◌, inl, inr, List, [], ◌∷◌, All, Bool, true, false, not, ◌||◌,
  Bool-cases, ok, Check,
}
use resource_action_operator.Api.{ResourceAction, ActionSpec}
use resource_action_operator.Std.{Std}
use resource_action_operator.Runtime.{Runtime}
use resource_action_operator.Matching.{MatchInput, event_text, concerns, already_executed}
use resource_action_operator.Validation.Spec.{is_scheduled}
use resource_action_operator.Executor.Actions.{Totals, no_totals, run_actions}
use resource_action_operator.Executor.Run.{after_actions, execute_one, execute_all}

-- A ResourceAction that the event does not concern, whose run for the object and the event is on
-- record, or that has scheduled actions only.
abbrev pub IsIdle : Std → MatchInput → ResourceAction → Type 0
IsIdle std input ra =
    (concerns std ra input ≡ false)
    ⊎ (already_executed ra.status.executions input.obj.uid (event_text input.event) ≡ true)
    ⊎ All (λ a. is_scheduled a ≡ true) ra.spec.actions

module _ {W : Type 0} (std : Std) (rt : Runtime W) (has_recorder : Bool) (input : MatchInput) where
  run_actions_scheduled :
      (ra : ResourceAction) (i : ℕ) (actions : List ActionSpec) (t : Totals) (w : W)
      → All (λ a. is_scheduled a ≡ true) actions
      → run_actions std rt ra input i actions t w ≡ ((t, ok tt), w)
  unfolding run_actions
  run_actions_scheduled ra i [] t w h = refl
  run_actions_scheduled ra i (a ∷ actions) t w h =
      rw (h.0) (run_actions_scheduled ra (suc i) actions t w h.1)

  abbrev skips : ResourceAction → Bool
  skips ra =
      not (concerns std ra input)
      || already_executed ra.status.executions input.obj.uid (event_text input.event)

  execute_one_idle :
      (ra : ResourceAction) (next : W → Check × W) (w : W)
      → IsIdle std input ra
      → execute_one std rt has_recorder input ra next w ≡ next w
  unfolding execute_one after_actions
  execute_one_idle ra next w (inl other) = rw other
  execute_one_idle ra next w (inr (inl done)) = elim (Bool-cases (concerns std ra input)) [
    | inl yes' ↦ rw (yes', done)
    | inr other ↦ rw other
  ]
  execute_one_idle ra next w (inr (inr scheduled)) = elim (Bool-cases (skips ra)) [
    | inl skip ↦ rw skip
    | inr run ↦ rw (run, run_actions_scheduled ra 0 ra.spec.actions no_totals w scheduled)
  ]

  -- If every listed ResourceAction is idle for an event, the event does nothing: no error, and the
  -- world as it was.
  pub execute_all_idle :
      (ras : List ResourceAction) (w : W)
      → All (IsIdle std input) ras
      → execute_all std rt has_recorder input ras w ≡ (ok tt, w)
  unfolding execute_all
  execute_all_idle [] w h = refl
  execute_all_idle (ra ∷ ras) w h =
      execute_one_idle ra (execute_all std rt has_recorder input ras) w h.0
      ∙ execute_all_idle ras w h.1
