-- ===== src/Validation/Job.antt =====
-- validateJobAction and its parts (api/v1alpha1/validation.go).
pub mod Volumes
pub mod Accepted
use resource_action_operator.Prelude.{
  ℕ, zero, suc, String, Option, none, some, List, [], ◌∷◌, Bool, true, false, not, ◌&&◌, ◌==◌,
  is_some, is_empty, same, any, Check, Result, ok, err, ◌>>◌, ◌>>=◌, reject_if, wrap, if◌then◌else◌,
  job_required, url_not_allowed, image_required, script_xor_command, args_with_script,
  env_name_required, env_value_xor_value_from, env_secret_required, volume_name_required,
  volume_duplicated, volume_source, volume_secret_required, volume_config_map_required,
  mount_name_required, mount_path_required, mount_undefined, job_timeout_invalid, log_tail_negative,
}
use resource_action_operator.Prelude.Int.{ℤ, pos, ltb_ℤ}
use resource_action_operator.Prelude.Text.{is_blank}
use resource_action_operator.Api.{
  ActionSpec, JobSpec, JobEnvVar, JobVolume, JobVolumeMount, JobSecretVolume, JobConfigMapVolume,
  ValueFrom,
}
use resource_action_operator.Std.{Std}
use resource_action_operator.Validation.Each.{for_each, validate_non_empty_strings}
use resource_action_operator.Validation.Http.{checked}

unfoldable pub validate_job_execution : ℕ → JobSpec → Check
validate_job_execution i job = do
  let has_script = not (is_blank job.script)
  reject_if (same has_script (not (is_empty job.command))) (script_xor_command i)
  reject_if (has_script && not (is_empty job.args)) (args_with_script i)
  validate_non_empty_strings i "job.command" job.command

-- `env.ValueFrom.SecretKeyRef != nil`, behind `env.ValueFrom != nil`.
abbrev pub has_secret_key_ref : Option ValueFrom → Bool
has_secret_key_ref none = false
has_secret_key_ref (some from) = is_some from.secret_key_ref

unfoldable pub check_env : ℕ → ℕ → JobEnvVar → Check
check_env i j env = do
  reject_if (is_blank env.name) (env_name_required i j)
  reject_if (same (not (env.value == "")) (is_some env.value_from)) (env_value_xor_value_from i j)
  reject_if (is_some env.value_from && not (has_secret_key_ref env.value_from))
      (env_secret_required i j)

unfoldable pub validate_job_env : ℕ → JobSpec → Check
validate_job_env i job = do
  validate_non_empty_strings i "job.args" job.args
  validate_non_empty_strings i "job.interpreterCommand" job.interpreter_command
  for_each (check_env i) 0 job.env

abbrev pub secret_name_blank : Option JobSecretVolume → Bool
secret_name_blank none = false
secret_name_blank (some secret) = is_blank secret.secret_name

abbrev pub config_map_name_blank : Option JobConfigMapVolume → Bool
config_map_name_blank none = false
config_map_name_blank (some config_map) = is_blank config_map.name

abbrev pub contains : List String → String → Bool
contains names name = any (λ n. n == name) names

-- The body of the loop over the volumes; the keys of `volumesByName` are the names seen so far.
unfoldable pub check_volume : ℕ → ℕ → List String → JobVolume → Check
check_volume i j seen vol = do
  reject_if (is_blank vol.name) (volume_name_required i j)
  reject_if (contains seen vol.name) (volume_duplicated i j vol.name)
  reject_if (same (is_some vol.secret) (is_some vol.config_map)) (volume_source i j)
  reject_if (secret_name_blank vol.secret) (volume_secret_required i j)
  reject_if (config_map_name_blank vol.config_map) (volume_config_map_required i j)

unfoldable pub validate_volumes_from : ℕ → ℕ → List String → List JobVolume → Result (List String)
validate_volumes_from i j seen [] = ok seen
validate_volumes_from i j seen (vol ∷ vols) =
    check_volume i j seen vol >> validate_volumes_from i (suc j) (vol.name ∷ seen) vols

unfoldable pub validate_job_volumes : ℕ → JobSpec → Result (List String)
unfolding validate_volumes_from
validate_job_volumes i job = validate_volumes_from i 0 [] job.volumes

unfoldable pub check_mount : ℕ → List String → ℕ → JobVolumeMount → Check
check_mount i volumes j mount = do
  reject_if (is_blank mount.name) (mount_name_required i j)
  reject_if (is_blank mount.mount_path) (mount_path_required i j)
  reject_if (not (contains volumes mount.name)) (mount_undefined i j mount.name)

unfoldable pub validate_job_volume_mounts : ℕ → JobSpec → List String → Check
validate_job_volume_mounts i job volumes = for_each (check_mount i volumes) 0 job.volume_mounts

abbrev pub is_negative : Option ℤ → Bool
is_negative none = false
is_negative (some lines) = ltb_ℤ lines (pos 0)

module _ (std : Std) where
  abbrev pub check_timeout : ℕ → String → Check
  check_timeout i timeout =
      if timeout == ""
      then ok tt
      else checked (wrap (job_timeout_invalid i) (std.parse_duration timeout))

  -- The part of validateJobAction behind `job := action.Job`.
  unfoldable pub validate_job : ℕ → JobSpec → Check
  validate_job i job = do
    reject_if (is_blank job.image) (image_required i)
    validate_job_execution i job
    validate_job_env i job
    volumes ← validate_job_volumes i job
    validate_job_volume_mounts i job volumes
    check_timeout i job.timeout
    reject_if (is_negative job.log_tail_lines) (log_tail_negative i)

  abbrev pub check_job : ℕ → String → String → Option JobSpec → Check
  check_job i type url none = err (job_required i type)
  check_job i type url (some job) =
      reject_if (not (url == "")) (url_not_allowed i type) >> validate_job i job

  unfoldable pub validate_job_action : ℕ → ActionSpec → Check
  validate_job_action i action = check_job i action.type action.url action.job
