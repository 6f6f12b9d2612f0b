-- ===== src/Executor/Actions/Frame.antt =====
-- The actions of a run leave the stored ResourceActions alone (internal/engine/executor.go).
use resource_action_operator.Prelude.{
  ℕ, suc, ◌≡◌, refl, ◌∙◌, inl, inr, String, Option, none, some, List, [], ◌∷◌, ◌==◌, Bool-cases,
  Result, ok, err, Check,
}
use resource_action_operator.Api.{ResourceAction, ActionSpec, ValueFrom, SecretKeyRef}
use resource_action_operator.Std.{Std}
use resource_action_operator.Runtime.{Runtime}
use resource_action_operator.Runtime.Frame.{Keeps, >>=-KeepsIo}
use resource_action_operator.Matching.{MatchInput}
use resource_action_operator.Validation.Spec.{is_scheduled}
use resource_action_operator.Http.Attempts.{HttpExecutionMetrics}
use resource_action_operator.Http.Execute.Frame.{execute_with_metrics_keeps}
use resource_action_operator.Jobs.Execute.Frame.{execute_job_keeps}
use resource_action_operator.Executor.Actions.{
  Totals, add_metrics, header_value, resolve_headers, after_headers, execute_action, after_action,
  run_actions,
}

module _ {W S : Type 0} (std : Std) (rt : Runtime W) (stored : W → S) (k : Keeps rt stored) where
  header_value_keeps :
      (namespace : String) (ref : Option SecretKeyRef) (w : W)
      → stored (header_value std rt namespace ref w).1 ≡ stored w
  header_value_keeps namespace none = λ w. refl
  header_value_keeps namespace (some ref) =
      >>=-KeepsIo rt stored (rt.get_secret ref.name namespace) _ (k.get_secret ref.name namespace)
        (λ data_of w. refl)

  resolve_headers_keeps :
      (headers : List (String × ValueFrom)) (namespace : String) (w : W)
      → stored (resolve_headers std rt headers namespace w).1 ≡ stored w
  unfolding resolve_headers
  resolve_headers_keeps [] namespace = λ w. refl
  resolve_headers_keeps ((key, from) ∷ headers) namespace =
      >>=-KeepsIo rt stored (header_value std rt namespace from.secret_key_ref) _
        (header_value_keeps namespace from.secret_key_ref)
        (λ value.
          >>=-KeepsIo rt stored (resolve_headers std rt headers namespace) _
            (resolve_headers_keeps headers namespace) (λ rest w. refl))

  module _ (ra : ResourceAction) (input : MatchInput) where
    after_headers_keeps :
        (action : ActionSpec) (headers : Result (List (String × String))) (w : W)
        → stored (after_headers std rt ra input action (headers, w)).1 ≡ stored w
    after_headers_keeps action (err e) w = refl
    after_headers_keeps action (ok headers) w =
        execute_with_metrics_keeps std rt stored k action ra.namespace input.obj headers w

    execute_action_keeps :
        (i : ℕ) (action : ActionSpec) (w : W)
        → stored (execute_action std rt ra input i action w).1 ≡ stored w
    unfolding execute_action
    execute_action_keeps i action w = elim (Bool-cases (action.type == "http")) [
      | inl http ↦ rw http (
          let (headers, w') = resolve_headers std rt action.headers ra.namespace w in
          after_headers_keeps action headers w'
          ∙ resolve_headers_keeps action.headers ra.namespace w)
      | inr other ↦ elim (Bool-cases (action.type == "job")) [
        | inl job ↦
            rw (other, job) (execute_job_keeps std rt stored k ra input i action.type action.job w)
        | inr neither ↦ rw (other, neither) refl
      ]
    ]

    after_action_keeps :
        (next : Totals → W → (Totals × Check) × W) (t : Totals) (m : HttpExecutionMetrics)
        (r : Check) (w : W)
        → ((t' : Totals) (w' : W) → stored (next t' w').1 ≡ stored w')
        → stored (after_action std rt ra input next t ((m, r), w)).1 ≡ stored w
    after_action_keeps next t m (err e) w h = refl
    after_action_keeps next t m (ok _) w h = h (add_metrics t m) w

    pub run_actions_keeps :
        (i : ℕ) (actions : List ActionSpec) (t : Totals) (w : W)
        → stored (run_actions std rt ra input i actions t w).1 ≡ stored w
    unfolding run_actions
    run_actions_keeps i [] t w = refl
    run_actions_keeps i (action ∷ actions) t w = elim (Bool-cases (is_scheduled action)) [
      | inl skipped ↦ rw skipped (run_actions_keeps (suc i) actions t w)
      | inr executed ↦ rw executed (
          let ((m, r), w') = execute_action std rt ra input i action w in
          after_action_keeps (run_actions std rt ra input (suc i) actions) t m r w'
            (run_actions_keeps (suc i) actions)
          ∙ execute_action_keeps i action w)
    ]
