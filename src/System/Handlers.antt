-- ===== src/System/Handlers.antt =====
-- Each handler of the operator runs through steps of the system.
use resource_action_operator.Prelude.{
  ℕ, suc, inl, inr, String, List, [], ◌∷◌, Bool, true, false, ◌==◌, Bool-cases, Result, ok, err,
  Check, if◌then◌else◌,
}
use resource_action_operator.Api.{ResourceAction, ActionSpec}
use resource_action_operator.Std.{Std}
use resource_action_operator.Runtime.{Runtime}
use resource_action_operator.Matching.{MatchInput, GroupVersionKind, concerns}
use resource_action_operator.Validation.Spec.{is_scheduled, validate_resource_action_spec}
use resource_action_operator.Cron.{
  CronKey, ensure_action, ensure_actions, ensure_all, after_list, ensure_for_match,
}
use resource_action_operator.Executor.Run.{execute}
use resource_action_operator.Engine.{Engine, rest_mapping, ensure_watching, on_event}
use resource_action_operator.Controller.{
  selected_gvk, valid_condition, put_spec_condition, after_validation, after_get, reconcile,
}
use resource_action_operator.System.{
  System, watch, registration, elsewhere, Reach, here, next, trans, Handler, reconciles, handles,
  ticks, wakes, run_handler,
}

module _ {W : Type 0} (std : Std) (rt : Runtime W) (s : System W) where
  -- The system with the keys and the world, or the engine and the world, that a part has left.
  abbrev of_jobs : List CronKey × W → System W
  of_jobs (jobs, w) = record s { jobs = jobs; world = w }

  abbrev of_engine : Engine × W → System W
  of_engine (e, w) = record s { engine = e; world = w }

  if-Reach :
      (b : Bool) (p q : List CronKey × W)
      → Reach std rt (of_jobs p) (of_jobs q)
      → Reach std rt (of_jobs p) (of_jobs (if b then q else p))
  if-Reach true p q reach = reach
  if-Reach false p q reach = here

  module _ (input : MatchInput) where
    ensure_action-Reach :
        (ra : ResourceAction) (i : ℕ) (action : ActionSpec) (p : List CronKey × W)
        → Reach std rt (of_jobs p) (of_jobs (ensure_action std rt input ra i action p))
    unfolding ensure_action
    ensure_action-Reach ra i action (jobs, w) = elim (Bool-cases (is_scheduled action)) [
      | inr once ↦ rw once here
      | inl scheduled ↦ elim (Bool-cases (action.schedule == "")) [
        | inl none' ↦ rw (scheduled, none') here
        | inr some' ↦ rw (scheduled, some') (next here (registration input ra i action))
      ]
    ]

    ensure_actions-Reach :
        (ra : ResourceAction) (i : ℕ) (actions : List ActionSpec) (p : List CronKey × W)
        → Reach std rt (of_jobs p) (of_jobs (ensure_actions std rt input ra i actions p))
    unfolding ensure_actions
    ensure_actions-Reach ra i [] p = here
    ensure_actions-Reach ra i (action ∷ actions) p =
        trans std rt (ensure_action-Reach ra i action p)
          (ensure_actions-Reach ra (suc i) actions (ensure_action std rt input ra i action p))

    ensure_all-Reach :
        (ras : List ResourceAction) (p : List CronKey × W)
        → Reach std rt (of_jobs p) (of_jobs (ensure_all std rt input ras p))
    unfolding ensure_all
    ensure_all-Reach [] p = here
    ensure_all-Reach (ra ∷ ras) p =
        trans std rt
          (if-Reach (concerns std ra input) p _ (ensure_actions-Reach ra 0 ra.spec.actions p))
          (ensure_all-Reach ras _)

    after_list-Reach :
        (jobs : List CronKey) (listed : Result (List ResourceAction)) (w : W)
        → Reach std rt (of_jobs (jobs, w)) (of_jobs (after_list std rt input jobs (listed, w)).1)
    after_list-Reach jobs (err e) w = here
    after_list-Reach jobs (ok ras) w = ensure_all-Reach ras (jobs, w)

    ensure_for_match-Reach :
        (jobs : List CronKey) (w : W)
        → Reach std rt (of_jobs (jobs, w)) (of_jobs (ensure_for_match std rt input (jobs, w)).1)
    unfolding ensure_for_match
    ensure_for_match-Reach jobs w =
        let (listed, w') = rt.list_actions w in
        trans std rt (next here (elsewhere w')) (after_list-Reach jobs listed w')

    on_event-Reach :
        (has_recorder : Bool) (jobs : List CronKey) (w : W)
        → Reach std rt (of_jobs (jobs, w)) (of_jobs (on_event std rt has_recorder input (jobs, w)))
    unfolding on_event
    on_event-Reach has_recorder jobs w =
        let (registered, (jobs', w')) = ensure_for_match std rt input (jobs, w) in
        next (ensure_for_match-Reach jobs w) (elsewhere (execute std rt has_recorder input w').1)

  ensure_watching-Reach :
      (gvk : GroupVersionKind) (e : Engine) (w : W)
      → Reach std rt (of_engine (e, w)) (of_engine (ensure_watching std rt gvk (e, w)).1)
  unfolding ensure_watching
  ensure_watching-Reach gvk e w =
      let (mapped, w') = rest_mapping std rt gvk w in
      next (next here (elsewhere w')) (watch gvk mapped)

  after_validation-Reach :
      (ra : ResourceAction) (checked : Check) (e : Engine) (w : W)
      → Reach std rt (of_engine (e, w)) (of_engine (after_validation std rt ra checked (e, w)).1)
  after_validation-Reach ra (err x) e w = next here (elsewhere _)
  after_validation-Reach ra (ok _) e w =
      let w' = put_spec_condition std rt ra.name ra.namespace valid_condition w in
      trans std rt (next here (elsewhere w')) (ensure_watching-Reach (selected_gvk ra) e w')

  after_get-Reach :
      (found : Result ResourceAction) (e : Engine) (w : W)
      → Reach std rt (of_engine (e, w)) (of_engine (after_get std rt e (found, w)).1)
  after_get-Reach (err x) e w = here
  after_get-Reach (ok ra) e w =
      after_validation-Reach ra (validate_resource_action_spec std ra.spec) e w

  reconcile-Reach :
      (has_engine : Bool) (name namespace : String) (e : Engine) (w : W)
      → Reach std rt
          (of_engine (e, w))
          (of_engine (reconcile std rt has_engine name namespace (e, w)).1)
  unfolding reconcile
  reconcile-Reach false name namespace e w = here
  reconcile-Reach true name namespace e w =
      let (found, w') = rt.get_action name namespace w in
      trans std rt (next here (elsewhere w')) (after_get-Reach found e w')

  -- Every handler, a reconciliation, an event, a tick of a cron action and a wake of the tracking of
  -- a Job, changes the engine and the keys of its cron engine by steps of the system alone; to the
  -- world it may do anything.
  pub run_handler-Reach :
      (has_recorder : Bool) (handler : Handler)
      → Reach std rt s (run_handler std rt has_recorder handler s)
  unfolding run_handler
  run_handler-Reach has_recorder (reconciles has_engine name namespace) =
      reconcile-Reach has_engine name namespace s.engine s.world
  run_handler-Reach has_recorder (handles input) = on_event-Reach input has_recorder s.jobs s.world
  run_handler-Reach has_recorder (ticks ra action input) = next here (elsewhere _)
  run_handler-Reach has_recorder (wakes ra input job spec wake) = next here (elsewhere _)
