-- ===== src/Examples/Store.antt =====
-- The concrete world keeps its ResourceActions, and executes an event once
-- (internal/engine/executor.go).
use resource_action_operator.Prelude.{
  ◌≡◌, refl, sym, ap, ◌∙◌, ok, List, [], ◌∷◌, String, Bool, true, false, ◌&&◌, ◌==◌, arith, eq_iff,
  Bool-cases, inl, inr, ok-injective,
}
use resource_action_operator.Prelude.Text.{equal_fold, trim_space}
use resource_action_operator.Http.Transport.{build_transport}
use resource_action_operator.Http.Policy.{validate_target_url}
use resource_action_operator.Http.Attempts.{retries_status}
use resource_action_operator.Jobs.Command.{resolve_job_command}
use resource_action_operator.Executor.Actions.{add_metrics}
use resource_action_operator.Api.{ResourceAction}
use resource_action_operator.Runtime.Frame.{Keeps}
use resource_action_operator.Executor.Run.{execute}
use resource_action_operator.Executor.Run.Step.{IsStore}
use resource_action_operator.Executor.Run.Once.{execute_once}
use resource_action_operator.Examples.Sample.{
  World, init_once, find_action, sample_std, sample_runtime, sample_input, start_world,
}

abbrev pub stored_actions : World → List ResourceAction
stored_actions w = w.stored

init_keeps :
    (done : Bool) (f : World → World) (w : World)
    → ((v : World) → (f v).stored ≡ v.stored)
    → (init_once done f w).stored ≡ w.stored
init_keeps true f w keeps = refl
init_keeps false f w keeps = keeps w

pub sample_keeps : Keeps sample_runtime stored_actions
sample_keeps = record {
  get_secret = λ name namespace w. refl;
  create_job = λ job w. refl;
  random_suffix = λ w. refl;
  start = λ task w. refl;
  metrics_init = λ f w keeps. init_keeps w.registered f w keeps;
  must_register = λ collectors w. refl;
  inc = λ c labels w. refl;
  add = λ c labels amount w. refl;
  observe = λ c labels amount w. refl;
  record_event = λ ra event_type reason message w. refl;
  send = λ transport timeout request w. refl;
  clock = λ w. refl;
  int63n = λ n w. refl;
  sleep = λ duration w. refl;
}

find_action_named :
    (name namespace : String) (ras : List ResourceAction) (latest : ResourceAction)
    → find_action name namespace ras ≡ ok latest
    → (latest.name ≡ name) × (latest.namespace ≡ namespace)
find_action_named name namespace [] latest h = cc
find_action_named name namespace (ra ∷ ras) latest h =
    elim (Bool-cases (ra.name == name && ra.namespace == namespace)) [
      | inl own ↦
          let same : ra ≡ latest = ok-injective (rw own at h) in
          (
            sym (ap (λ r. r.name) same) ∙ ground (arith, eq_iff ra.name name),
            sym (ap (λ r. r.namespace) same) ∙ ground (arith, eq_iff ra.namespace namespace),
          )
      | inr other ↦ find_action_named name namespace ras latest (rw other at h)
    ]

pub sample_store : IsStore sample_runtime stored_actions
sample_store = record {
  keeps = sample_keeps;
  get_keeps = λ name namespace w. refl;
  get_named = λ name namespace w latest h. find_action_named name namespace w.stored latest h;
  updated = λ ra w h. refl;
  not_updated = λ ra w e h. cc;
  retried = λ f w failed h. (w, refl, refl);
}

runs_sample : (execute sample_std sample_runtime true sample_input start_world).0 ≡ ok tt
unfolding execute equal_fold build_transport validate_target_url retries_status resolve_job_command
    trim_space add_metrics
runs_sample = refl

execute_once_example :
    let w' = (execute sample_std sample_runtime true sample_input start_world).1 in
    execute sample_std sample_runtime true sample_input w' ≡ (ok tt, w')
execute_once_example =
    let w' = (execute sample_std sample_runtime true sample_input start_world).1 in
    execute_once sample_std sample_runtime true sample_input stored_actions sample_store start_world
      w' refl (ap (λ r. (r, w')) runs_sample) refl
