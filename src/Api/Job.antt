-- ===== src/Api/Job.antt =====
-- The specification of a job action (api/v1alpha1/resourceaction_types.go). The resource
-- requirements are a type of the Kubernetes API, and are left a text that is copied.
use resource_action_operator.Prelude.{String, Bool, List, Option}
use resource_action_operator.Prelude.Int.{ℤ}

pub record SecretKeyRef : Type 0 where
  pub name : String
  pub key : String

pub record ValueFrom : Type 0 where
  pub secret_key_ref : Option SecretKeyRef

pub record JobEnvVar : Type 0 where
  pub name : String
  pub value : String
  pub value_from : Option ValueFrom

pub record JobSecretVolume : Type 0 where
  pub secret_name : String

pub record JobConfigMapVolume : Type 0 where
  pub name : String

pub record JobVolume : Type 0 where
  pub name : String
  pub secret : Option JobSecretVolume
  pub config_map : Option JobConfigMapVolume

pub record JobVolumeMount : Type 0 where
  pub name : String
  pub mount_path : String
  pub read_only : Option Bool

pub record JobSpec : Type 0 where
  pub image : String
  pub command : List String
  pub args : List String
  pub script : String
  pub interpreter_command : List String
  pub env : List JobEnvVar
  pub volumes : List JobVolume
  pub volume_mounts : List JobVolumeMount
  pub service_account_name : String
  pub allow_run_as_root : Option Bool
  pub automount_service_account_token : Option Bool
  pub timeout : String
  pub log_tail_lines : Option ℤ  -- int32
  pub ttl_seconds_after_finished : Option ℤ  -- int32
  pub backoff_limit : Option ℤ  -- int32
  pub resources : Option String
