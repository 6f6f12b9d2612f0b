-- ===== src/Executor/Run/Settled.antt =====
-- What is left of one ResourceAction after a run of the executor without an error (Execute of
-- internal/engine/executor.go).
use resource_action_operator.Prelude.{
  ℕ, ◌≡◌, refl, sym, subst, ap, ◌∙◌, ◌⊎◌, inl, inr, String, Option, none, List, Bool, true, false,
  not, ◌||◌, ltb, Bool-cases, ok, err, Check, Error, if◌then◌else◌,
}
use resource_action_operator.Api.{ResourceAction, ExecutionRecord}
use resource_action_operator.Std.{Std}
use resource_action_operator.Runtime.{Runtime}
use resource_action_operator.Matching.{MatchInput, event_text, concerns, already_executed}
use resource_action_operator.Executor.Actions.{Totals, no_totals, run_actions}
use resource_action_operator.Executor.Actions.Frame.{run_actions_keeps}
use resource_action_operator.Executor.Actions.Any.{run_actions_none}
use resource_action_operator.Executor.Status.{exec_record, record_run, update_once}
use resource_action_operator.Executor.Status.Recorded.{record_run-already_executed}
use resource_action_operator.Executor.Event.{event_message}
use resource_action_operator.Executor.Run.{
  has_figures, figures, emit_event, succeeded, report, after_update, after_actions, execute_one,
}
use resource_action_operator.Executor.Run.Effects.{IsIdle}
use resource_action_operator.Metrics.{observe_http_execution}
use resource_action_operator.Metrics.Frame.{observe_http_execution_keeps}
use resource_action_operator.Executor.Run.Step.{set_status, IsStore, Written, retried-Written}

module _ {W : Type 0} (std : Std) (rt : Runtime W) (has_recorder : Bool) (input : MatchInput)
    (stored : W → List ResourceAction) (store : IsStore rt stored) (ra : ResourceAction) where
  -- The loop goes on in a world with this store.
  abbrev GoesOn : (W → Check × W) → Check × W → List ResourceAction → Type 0
  GoesOn next p after = (v : W) × (p ≡ next v) × (stored v ≡ after)

  emit_keeps :
      (event_type reason : String) (exec : ExecutionRecord) (e : Option Error) (w : W)
      → stored (emit_event std rt has_recorder input ra event_type reason exec e w) ≡ stored w
  unfolding emit_event
  emit_keeps event_type reason exec e w = elim (Bool-cases has_recorder) [
    | inl yes' ↦
        rw yes' (store.keeps.record_event ra event_type reason (event_message std exec e) w)
    | inr no' ↦ rw no' refl
  ]

  succeeded-GoesOn :
      (exec : ExecutionRecord) (t : Totals) (next : W → Check × W) (w : W)
      → GoesOn next (succeeded std rt has_recorder input ra exec t next w) (stored w)
  unfolding succeeded
  succeeded-GoesOn exec t next w =
      (_, refl, emit_keeps "Normal" "ActionSucceeded" exec none _ ∙ observed)
    where
      observed :
          stored (
            if has_figures std rt has_recorder input t
            then observe_http_execution rt "success" (figures t) w
            else w)
          ≡ stored w
      observed = elim (Bool-cases (has_figures std rt has_recorder input t)) [
        | inl yes' ↦
            rw yes' (observe_http_execution_keeps rt stored store.keeps "success" (figures t) w)
        | inr no' ↦ rw no' refl
      ]

  report-GoesOn :
      (exec : ExecutionRecord) (t : Totals) (next : W → Check × W) (result : Check) (w : W)
      → (report std rt has_recorder input ra exec t next result w).0 ≡ ok tt
      → GoesOn next (report std rt has_recorder input ra exec t next result w) (stored w)
  unfolding report
  report-GoesOn exec t next (ok _) w h = succeeded-GoesOn exec t next w
  report-GoesOn exec t next (err e) w h = elim (Bool-cases (ltb 0 t.executed_actions)) [
    | inl some' ↦ cc (rw some' at h)
    | inr none' ↦ rw none' (succeeded-GoesOn exec t next w)
  ]

  -- The resource is idle and the store is as it was, or its status was written with the run on
  -- record.
  abbrev pub IsExecuted : ResourceAction → Type 0
  IsExecuted new =
      already_executed new.status.executions input.obj.uid (event_text input.event) ≡ true

  abbrev pub Step : (W → Check × W) → Check × W → List ResourceAction → Type 0
  Step next p before =
      (IsIdle std input ra × GoesOn next p before)
      ⊎ ((new : ResourceAction) × ((new.name ≡ ra.name)
            × (new.namespace ≡ ra.namespace)
            × IsExecuted new)
          × GoesOn next p (set_status new before))

  record_run_named :
      (exec : ExecutionRecord) (result : Check) (now : ℕ) (latest : ResourceAction)
      → ((record_run std exec result now latest).name ≡ latest.name)
        × ((record_run std exec result now latest).namespace ≡ latest.namespace)
  unfolding record_run
  record_run_named exec (ok _) now latest = (refl, refl)
  record_run_named exec (err e) now latest = (refl, refl)

  Written-Step :
      (at : ℕ) (t : Totals) (next : W → Check × W) (result updated : Check) (w : W)
      (before : List ResourceAction)
      → (updated ≡ ok tt
          → Written std rt has_recorder input stored store ra
              (exec_record input at t)
              result
              before
              (stored w))
      → (after_update std rt has_recorder input ra
          (exec_record input at t)
          t
          next
          result
          (updated, w)).0
        ≡ ok tt
      → Step next
          (after_update std rt has_recorder input ra
            (exec_record input at t)
            t
            next
            result
            (updated, w))
          before
  Written-Step at t next result (err e) w before written h = cc
  Written-Step at t next result (ok _) w before written h =
      let (latest, now, name, namespace, after) = written refl in
      let exec = exec_record input at t in
      let (v, same, kept) = report-GoesOn exec t next result w h in
      let (own_name, own_namespace) = record_run_named exec result now latest in
      inr (
        record_run std exec result now latest,
        (
          own_name ∙ name,
          own_namespace ∙ namespace,
          record_run-already_executed std input at now t result latest,
        ),
        (v, same, kept ∙ after),
      )

  actions-Step :
      (next : W → Check × W) (t : Totals) (result : Check) (w : W)
      → (t.executed_any ≡ false → IsIdle std input ra)
      → (after_actions std rt has_recorder input ra next t result w).0 ≡ ok tt
      → Step next (after_actions std rt has_recorder input ra next t result w) (stored w)
  unfolding after_actions exec_record report
  actions-Step next t result w idle h = elim (Bool-cases (t.executed_any)) [
    | inr none' ↦ inl (idle none', rw none' (w, refl, refl))
    | inl some' ↦
        let (at, w') = rt.clock w in
        let exec = exec_record input at t in
        let (updated, w'') = rt.retry_on_conflict (update_once std rt ra exec result) w' in
        rw some' (
          Written-Step at t next result updated w'' (stored w)
            (λ e.
              let (latest, now, name, namespace, after) =
                retried-Written std rt has_recorder input stored store ra exec result w' e in
              (
                latest,
                now,
                name,
                namespace,
                after
                    ∙ ap (set_status (record_run std exec result now latest)) (store.keeps.clock w),
              ))
            (rw some' at h))
  ]

  run-Step :
      (next : W → Check × W) (w : W)
      → let ((t, result), w') = run_actions std rt ra input 0 ra.spec.actions no_totals w in
        (after_actions std rt has_recorder input ra next t result w').0 ≡ ok tt
        → Step next (after_actions std rt has_recorder input ra next t result w') (stored w)
  run-Step next w h =
      let ((t, result), w') = run_actions std rt ra input 0 ra.spec.actions no_totals w in
      subst (Step next (after_actions std rt has_recorder input ra next t result w'))
        (run_actions_keeps std rt stored store.keeps ra input 0 ra.spec.actions no_totals w)
        (actions-Step next t result w'
          (λ none'.
            inr (inr (run_actions_none std rt ra input 0 ra.spec.actions no_totals w none')))
          h)

  executes :
      (next : W → Check × W) (w : W)
      → concerns std ra input ≡ true
      → already_executed ra.status.executions input.obj.uid (event_text input.event) ≡ false
      → execute_one std rt has_recorder input ra next w ≡ (
          let ((t, result), w') = run_actions std rt ra input 0 ra.spec.actions no_totals w in
          after_actions std rt has_recorder input ra next t result w')
  unfolding execute_one
  executes next w ours fresh = rw (ours, fresh) refl

  skips_one :
      (next : W → Check × W) (w : W)
      → (not (concerns std ra input)
          || already_executed ra.status.executions input.obj.uid (event_text input.event))
        ≡ true
      → execute_one std rt has_recorder input ra next w ≡ next w
  unfolding execute_one
  skips_one next w skipped = rw skipped refl

  pub execute_one-Step :
      (next : W → Check × W) (w : W)
      → (execute_one std rt has_recorder input ra next w).0 ≡ ok tt
      → Step next (execute_one std rt has_recorder input ra next w) (stored w)
  execute_one-Step next w h = elim (Bool-cases (concerns std ra input)) [
    | inr other ↦ inl (inl other, (w, skips_one next w (rw other refl), refl))
    | inl ours ↦
        elim (Bool-cases
          (already_executed ra.status.executions input.obj.uid (event_text input.event))) [
            | inl done ↦ inl (inr (inl done), (w, skips_one next w (rw (ours, done) refl), refl))
            | inr fresh ↦
                let same = executes next w ours fresh in
                subst (λ p. Step next p (stored w)) (sym same)
                  (run-Step next w (sym (ap (λ p. p.0) same) ∙ h))
          ]
  ]
