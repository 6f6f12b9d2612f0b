-- ===== src/Examples/Tracked.antt =====
-- The tracking of a Job (internal/engine/job_executor.go) in a world where its status can be read and
-- updated.
use resource_action_operator.Prelude.{◌≡◌, refl, sym, ap, ok-injective, [], ◌∷◌, ◌++◌, ok}
use resource_action_operator.Api.{JobExecutionRecord}
use resource_action_operator.Kube.{KubeJob}
use resource_action_operator.Runtime.{Runtime}
use resource_action_operator.Executor.Run.Step.{IsStore}
use resource_action_operator.Jobs.Build.{assemble_job}
use resource_action_operator.Jobs.Track.{deadline, tick, update_job_once, track_job_execution}
use resource_action_operator.Jobs.Track.Reported.{AllOwn}
use resource_action_operator.Jobs.Track.Ends.{
  is_settled, track_job_execution_ends, track_job_execution_settles,
}
use resource_action_operator.Examples.Sample.{
  World, sample_std, sample_runtime, sample_action, sample_input, sample_job, start_world,
}
use resource_action_operator.Examples.Store.{stored_actions, sample_keeps}

abbrev job : KubeJob
job =
    record (assemble_job sample_std "abcde" sample_action 2 "job" sample_job sample_input
      ([], [])) { name = "job-1" }

-- Every resource and every Job can be read.
abbrev tracking : Runtime World
tracking = record sample_runtime {
  get_action =
      λ name namespace w. (ok (record sample_action { name = name; namespace = namespace }), w);
  get_job = λ name namespace w. (ok (record job { name = name; namespace = namespace }), w);
}

tracking_store : IsStore tracking stored_actions
tracking_store = record {
  keeps = record {
    get_secret = sample_keeps.get_secret;
    create_job = sample_keeps.create_job;
    random_suffix = sample_keeps.random_suffix;
    start = sample_keeps.start;
    metrics_init = sample_keeps.metrics_init;
    must_register = sample_keeps.must_register;
    inc = sample_keeps.inc;
    add = sample_keeps.add;
    observe = sample_keeps.observe;
    record_event = sample_keeps.record_event;
    send = sample_keeps.send;
    clock = sample_keeps.clock;
    int63n = sample_keeps.int63n;
    sleep = sample_keeps.sleep;
  };
  get_keeps = λ name namespace w. refl;
  get_named = λ name namespace w latest h.
      let same = ok-injective h in (sym (ap (λ r. r.name) same), sym (ap (λ r. r.namespace) same));
  updated = λ ra w h. refl;
  not_updated = λ ra w e h. cc;
  retried = λ f w failed h. (w, refl, refl);
}

track_job_execution_ends_example :
    track_job_execution tracking sample_action sample_input job sample_job
      ((tick ∷ []) ++ deadline ∷ tick ∷ [])
      start_world
    ≡ track_job_execution tracking sample_action sample_input job sample_job
        ((tick ∷ []) ++ deadline ∷ [])
        start_world
track_job_execution_ends_example =
    track_job_execution_ends tracking sample_action sample_input job sample_job (tick ∷ [])
      (tick ∷ []) start_world

updates_succeed :
    (r : JobExecutionRecord) (v : World)
    → (tracking.retry_on_conflict (update_job_once tracking sample_action sample_input r) v).0
      ≡ ok tt
unfolding update_job_once
updates_succeed r v = refl

track_job_execution_settles_example :
    AllOwn
      (is_settled sample_input "job-1")
      sample_action
      (track_job_execution tracking sample_action sample_input job sample_job
        ((tick ∷ []) ++ deadline ∷ [])
        start_world).stored
track_job_execution_settles_example =
    track_job_execution_settles tracking sample_action sample_input job sample_job stored_actions
      tracking_store updates_succeed (λ v. (record job { namespace = job.namespace }, refl, refl))
      (tick ∷ []) [] start_world
