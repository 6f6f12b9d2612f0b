-- ===== src/Examples/Validations.antt =====
-- The validation (api/v1alpha1/validation.go) on concrete specifications.
use resource_action_operator.Prelude.{◌≡◌, refl, ◌↔◌, ok, err, [], ◌∷◌, script_xor_command}
use resource_action_operator.Prelude.Text.{trim_space, equal_fold}
use resource_action_operator.Validation.Each.{validate_non_empty_strings}
use resource_action_operator.Examples.Sample.{sample_std, sample_spec, sample_job}
use resource_action_operator.Validation.Http.{validate_http_action, validate_action_url}
use resource_action_operator.Validation.Spec.{
  validate_resource_action_spec, check_filters, check_label_changes, contains_spec_event,
  check_action, check_schedule, check_type,
}
use resource_action_operator.Validation.Spec.Accepted.{
  IsValidSpec, validate_resource_action_spec_iff,
}
use resource_action_operator.Validation.Job.{
  validate_job, validate_job_execution, validate_job_action, validate_job_env, check_env,
  check_volume, check_mount, validate_job_volume_mounts, validate_volumes_from,
  validate_job_volumes,
}
use resource_action_operator.Validation.Job.Accepted.{IsValidJob, validate_job_iff}

pub accepts_sample : validate_resource_action_spec sample_std sample_spec ≡ ok tt
unfolding validate_resource_action_spec check_filters check_label_changes contains_spec_event
    equal_fold check_action check_schedule check_type validate_http_action validate_action_url
    validate_job_action validate_job validate_job_execution validate_non_empty_strings
    validate_job_env check_env validate_job_volumes check_volume validate_volumes_from check_mount
    validate_job_volume_mounts trim_space
accepts_sample = refl

pub sample_job-IsValid : IsValidJob sample_std sample_job
unfolding validate_job validate_job_execution validate_non_empty_strings validate_job_env check_env
    validate_job_volumes check_volume validate_volumes_from check_mount validate_job_volume_mounts
    trim_space
sample_job-IsValid = (validate_job_iff sample_std 0 sample_job).0 refl

rejects_two_programs :
    validate_job sample_std 0 (record sample_job { command = "sh" ∷ [] })
    ≡ err (script_xor_command 0)
unfolding validate_job validate_job_execution trim_space
rejects_two_programs = refl

validate_resource_action_spec_iff_example :
    (validate_resource_action_spec sample_std sample_spec ≡ ok tt)
    ↔ IsValidSpec sample_std sample_spec
validate_resource_action_spec_iff_example = validate_resource_action_spec_iff sample_std sample_spec

validate_job_iff_example :
    (validate_job sample_std 2 sample_job ≡ ok tt) ↔ IsValidJob sample_std sample_job
validate_job_iff_example = validate_job_iff sample_std 2 sample_job
