-- ===== src/Kube.antt =====
-- The types of the Kubernetes API that the job executor builds and reads, with the fields that it
-- uses (internal/engine/job_executor.go). An optional field that it always sets is a value.
use resource_action_operator.Prelude.{ℕ, String, Option, List, Bool}
use resource_action_operator.Prelude.Int.{ℤ}
use resource_action_operator.Api.{SecretKeyRef}

pub record EnvVar : Type 0 where
  pub name : String
  pub value : String
  pub secret_key_ref : Option SecretKeyRef

pub data VolumeSource : Type 0 where
  no_source : VolumeSource
  secret : String → VolumeSource
  config_map : String → VolumeSource

pub record Volume : Type 0 where
  pub name : String
  pub source : VolumeSource

pub record VolumeMount : Type 0 where
  pub name : String
  pub mount_path : String
  pub read_only : Bool

pub record SecurityContext : Type 0 where
  pub allow_privilege_escalation : Bool
  pub run_as_non_root : Bool
  pub read_only_root_filesystem : Bool
  pub drop : List String

pub record Container : Type 0 where
  pub name : String
  pub image : String
  pub image_pull_policy : String
  pub command : List String
  pub args : List String
  pub env : List EnvVar
  pub volume_mounts : List VolumeMount
  pub security_context : SecurityContext
  pub resources : Option String

pub record PodSpec : Type 0 where
  pub restart_policy : String
  pub automount_service_account_token : Bool
  pub service_account_name : String
  pub containers : List Container
  pub volumes : List Volume
  pub enable_service_links : Bool
  pub termination_grace_period_seconds : ℤ

pub record PodTemplate : Type 0 where
  pub labels : List (String × String)
  pub spec : PodSpec

pub record JobCondition : Type 0 where
  pub type : String
  pub status : String

pub record JobStatus : Type 0 where
  pub active : ℤ  -- int32
  pub start_time : Option ℕ
  pub completion_time : Option ℕ
  pub conditions : List JobCondition

-- batchv1.Job; `name`, made from `generate_name`, and the creation time are set by
-- the server.
pub record KubeJob : Type 0 where
  pub name : String
  pub namespace : String
  pub generate_name : String
  pub labels : List (String × String)
  pub backoff_limit : ℤ  -- int32
  pub ttl_seconds_after_finished : ℤ  -- int32
  pub active_deadline_seconds : ℤ
  pub template : PodTemplate
  pub status : JobStatus
  pub creation_timestamp : ℤ  -- its Unix time in milliseconds

pub record ContainerStatus : Type 0 where
  pub name : String
  pub terminated : Option ℤ  -- State.Terminated.ExitCode, where it is set

pub record Pod : Type 0 where
  pub name : String
  pub container_statuses : List ContainerStatus

-- schema.GroupVersionResource
pub record GroupVersionResource : Type 0 where
  pub group : String
  pub version : String
  pub resource : String

-- metav1.APIResource
pub record ApiResource : Type 0 where
  pub name : String
  pub kind : String
