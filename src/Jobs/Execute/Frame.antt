-- ===== src/Jobs/Execute/Frame.antt =====
-- The creation of a Job leaves the stored ResourceActions alone (internal/engine/job_executor.go).
use resource_action_operator.Prelude.{
  ℕ, ◌≡◌, refl, ◌∙◌, String, Option, none, some, List, Result, ok, err,
}
use resource_action_operator.Api.{ResourceAction, JobSpec}
use resource_action_operator.Std.{Std}
use resource_action_operator.Kube.{KubeJob}
use resource_action_operator.Runtime.{Runtime, track_job}
use resource_action_operator.Runtime.Frame.{Keeps}
use resource_action_operator.Matching.{MatchInput}
use resource_action_operator.Jobs.Command.{resolve_job_command}
use resource_action_operator.Jobs.Build.{build_job_for_action}
use resource_action_operator.Jobs.Execute.{after_create, create_built, draw_suffix, execute_job}

module _ {W S : Type 0} (std : Std) (rt : Runtime W) (stored : W → S) (k : Keeps rt stored)
    (ra : ResourceAction) (input : MatchInput) where
  after_create_keeps :
      (job : JobSpec) (started_at : ℕ) (created : Result KubeJob) (w : W)
      → stored (after_create std rt ra input job started_at created w).1 ≡ stored w
  unfolding after_create
  after_create_keeps job started_at (err e) w = refl
  after_create_keeps job started_at (ok created) w =
      let task = track_job ra input created job in k.clock (rt.start task w) ∙ k.start task w

  create_built_keeps :
      (job : JobSpec) (started_at : ℕ) (built : Result KubeJob) (w : W)
      → stored (create_built std rt ra input job started_at built w).1 ≡ stored w
  unfolding create_built
  create_built_keeps job started_at (err e) w = refl
  create_built_keeps job started_at (ok built) w =
      let (created, w') = rt.create_job built w in
      after_create_keeps job started_at created w' ∙ k.create_job built w

  draw_suffix_keeps :
      (program : Result (List String × List String)) (w : W)
      → stored (draw_suffix std rt ra input program w).1 ≡ stored w
  draw_suffix_keeps (err e) w = refl
  draw_suffix_keeps (ok program) w = k.random_suffix w

  pub execute_job_keeps :
      (action_index : ℕ) (type : String) (job : Option JobSpec) (w : W)
      → stored (execute_job std rt ra input action_index type job w).1 ≡ stored w
  unfolding execute_job
  execute_job_keeps action_index type none w = k.clock w
  execute_job_keeps action_index type (some job) w =
      let (started_at, w') = rt.clock w in
      let (suffix, w'') = draw_suffix std rt ra input (resolve_job_command job) w' in
      create_built_keeps job started_at
        (build_job_for_action std suffix ra action_index type job input) w''
      ∙ draw_suffix_keeps (resolve_job_command job) w'
      ∙ k.clock w
