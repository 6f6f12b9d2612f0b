-- ===== src/Api/Status.antt =====
-- The status of a ResourceAction, and the resource itself
-- (api/v1alpha1/resourceaction_types.go). A time is its Unix time in milliseconds.
use resource_action_operator.Prelude.{String, List, Option, ℕ}
use resource_action_operator.Prelude.Int.{ℤ}
use resource_action_operator.Api.Spec.{ResourceActionSpec}

pub record JobExecutionRecord : Type 0 where
  pub name : String
  pub namespace : String
  pub pod_name : String
  pub status : String
  pub exit_code : Option ℤ  -- int32
  pub started_at : Option ℕ
  pub completed_at : Option ℕ
  pub log_tail : List String

pub record ExecutionRecord : Type 0 where
  pub resource_uid : String
  pub event : String
  pub executed_at : ℕ
  pub action_count : ℤ
  pub attempts : ℤ
  pub retry_count : ℤ
  pub network_retry_count : ℤ
  pub status_retry_count : ℤ
  pub backoff_millis : ℤ
  pub duration_millis : ℤ
  pub last_http_status : ℤ
  pub job : Option JobExecutionRecord

-- The fields of metav1.Condition; the zero time is `none`.
pub record Condition : Type 0 where
  pub type : String
  pub status : String
  pub observed_generation : ℤ
  pub last_transition_time : Option ℕ
  pub reason : String
  pub message : String

pub record ResourceActionStatus : Type 0 where
  pub executions : List ExecutionRecord
  pub last_error : String
  pub conditions : List Condition

-- Of the metadata, the fields that the code reads and the version, which an update sends back.
pub record ResourceAction : Type 0 where
  pub name : String
  pub namespace : String
  pub resource_version : String
  pub generation : ℤ
  pub spec : ResourceActionSpec
  pub status : ResourceActionStatus
