-- ===== src/Jobs/Build/WellFormed.antt =====
-- The Jobs that buildJobForAction (internal/engine/job_executor.go) builds from valid job actions.
use resource_action_operator.Prelude.{
  ℕ, ◌≡◌, refl, ◌∙◌, ◌≢◌, ◌⊎◌, inl, inr, arith, String, Option, none, some, List, [], ◌∷◌, map, All,
  Bool, true, false, any, ok, is_empty, is_some, ◌==◌,
}
use resource_action_operator.Prelude.Int.{pos, ltb_ℤ}
use resource_action_operator.Api.{
  ResourceAction, JobSpec, JobEnvVar, JobVolume, JobVolumeMount, JobSecretVolume,
  JobConfigMapVolume, ValueFrom, SecretKeyRef,
}
use resource_action_operator.Std.{Std}
use resource_action_operator.Kube.{EnvVar, Volume, Container, KubeJob, no_source}
use resource_action_operator.Matching.{MatchInput}
use resource_action_operator.Validation.Job.{contains}
use resource_action_operator.Validation.Job.Volumes.{IsValidVolume, Source, names}
use resource_action_operator.Validation.Job.Accepted.{
  IsValidEnv, Supplied, IsValidMount, IsValidJob,
}
use resource_action_operator.Jobs.Command.{resolve_job_command_valid}
use resource_action_operator.Jobs.Build.{
  secret_ref, env_value, build_env_var, volume_source, build_volume, build_volume_mount,
  deadline_seconds, assemble_job, build_job_for_action,
}

abbrev pub has_volume : List Volume → String → Bool
has_volume volumes name = any (λ v. v.name == name) volumes

-- A value, or a reference to a Secret, and not both.
abbrev pub HasOneValue : EnvVar → Type 0
HasOneValue env =
    ((env.value ≢ "") × (env.secret_key_ref ≡ none))
    ⊎ ((env.value ≡ "") × (is_some env.secret_key_ref ≡ true))

pub record IsRunnable (volumes : List Volume) (c : Container) : Type 0 where
  pub command : is_empty c.command ≡ false
  pub env : All HasOneValue c.env
  pub mounts : All (λ m. has_volume volumes m.name ≡ true) c.volume_mounts

pub record IsWellFormed (job : KubeJob) : Type 0 where
  pub containers : All (IsRunnable job.template.spec.volumes) job.template.spec.containers
  pub volumes : All (λ v. v.source ≢ no_source) job.template.spec.volumes
  pub deadline : ltb_ℤ (pos 0) job.active_deadline_seconds ≡ true

-- A mapped list has what the elements bring.
All-map {ℓ κ} :
    {A : Type ℓ} {B : Type κ} {P : A → Type 0} (Q : B → Type 0) (f : A → B)
    → ((a : A) → P a → Q (f a))
    → (xs : List A) → All P xs
    → All Q (map f xs)
All-map Q f each [] h = tt
All-map Q f each (x ∷ xs) h = (each x h.0, All-map Q f each xs h.1)

env_ref_one :
    (value : String) (ref : Option SecretKeyRef)
    → is_some ref ≡ true
    → ((env_value ref value ≢ "") × (ref ≡ none))
      ⊎ ((env_value ref value ≡ "") × (is_some ref ≡ true))
env_ref_one value none h = cc
env_ref_one value (some ref) h = inr (refl, refl)

env_value_one :
    (value : String) (from : Option ValueFrom)
    → Supplied value from
    → ((env_value (secret_ref from) value ≢ "") × (secret_ref from ≡ none))
      ⊎ ((env_value (secret_ref from) value ≡ "") × (is_some (secret_ref from) ≡ true))
env_value_one value none h = inl (h, refl)
env_value_one value (some from) h = env_ref_one value from.secret_key_ref h.1

build_env_var-HasOneValue : (env : JobEnvVar) → IsValidEnv env → HasOneValue (build_env_var env)
unfolding build_env_var
build_env_var-HasOneValue env h = env_value_one env.value env.value_from h.1

Source-set :
    (s : Option JobSecretVolume) (c : Option JobConfigMapVolume)
    → Source s c
    → volume_source s c ≢ no_source
Source-set (some s) none h e = cc
Source-set none (some c) h e = cc
Source-set none none h e = elim h [ ]
Source-set (some s) (some c) h e = cc

build_volume-source : (vol : JobVolume) → IsValidVolume vol → (build_volume vol).source ≢ no_source
unfolding build_volume
build_volume-source vol h = Source-set vol.secret vol.config_map h.1

has_volume-map :
    (vols : List JobVolume) (name : String)
    → has_volume (map build_volume vols) name ≡ contains (names vols) name
unfolding build_volume
has_volume-map [] name = refl
has_volume-map (vol ∷ vols) name = ground (arith, has_volume-map vols name)

deadline_positive :
    (std : Std) (timeout : String) → ltb_ℤ (pos 0) (deadline_seconds std timeout) ≡ true
unfolding deadline_seconds
deadline_positive std timeout = ground arith

module _ (std : Std) (suffix : String) (ra : ResourceAction) (action_index : ℕ) (type : String)
    (job : JobSpec) (input : MatchInput) where
  assemble_job-IsWellFormed :
      (program : List String × List String)
      → is_empty program.0 ≡ false
      → IsValidJob std job
      → IsWellFormed (assemble_job std suffix ra action_index type job input program)
  unfolding assemble_job
  assemble_job-IsWellFormed program command valid = record {
    containers = (
      record {
        command = command;
        env = All-map HasOneValue build_env_var build_env_var-HasOneValue job.env valid.env;
        mounts =
            All-map (λ m. has_volume (map build_volume job.volumes) m.name ≡ true)
              build_volume_mount mounted job.volume_mounts valid.mounts;
      },
      tt,
    );
    volumes =
        All-map (λ v. v.source ≢ no_source) build_volume build_volume-source job.volumes
          valid.volumes;
    deadline = deadline_positive std job.timeout;
  }
    where
      mounted :
          (m : JobVolumeMount)
          → IsValidMount (names job.volumes) m
          → has_volume (map build_volume job.volumes) (build_volume_mount m).name ≡ true
      mounted m h = has_volume-map job.volumes m.name ∙ h.2

  -- For a valid job, with whatever random suffix, a Job is built, and its container has a command,
  -- exactly one of a value and a Secret reference in each variable, and mounts of volumes of the
  -- pod only; each volume has a source, and the deadline is positive.
  pub build_job_for_action-IsWellFormed :
      IsValidJob std job
      → (built : KubeJob) × (build_job_for_action std suffix ra action_index type job input
          ≡ ok built)
        × IsWellFormed built
  unfolding build_job_for_action
  build_job_for_action-IsWellFormed valid =
      let (program, resolved, command) = resolve_job_command_valid job valid.program in
      (
        assemble_job std suffix ra action_index type job input program,
        rw resolved,
        assemble_job-IsWellFormed program command valid,
      )
