-- ===== src/Prelude/Results/Errors.antt =====
-- The errors that the code makes, one constructor for each `fmt.Errorf` with the values that it
-- formats; a constructor that holds an `Error` is a `%w`. `external` is an error of a library.
use Prim.Native.Nat.{ℕ}
use Prim.Native.String.{String}

pub data Error : Type 0 where
  external : String → Error
  -- api/v1alpha1/validation.go
  selector_required event_required action_required : Error
  invalid_name_regex invalid_namespace_regex : Error → Error
  label_changes_require_update : Error
  label_change_key_required : ℕ → Error
  schedule_required : ℕ → String → Error
  schedule_invalid : ℕ → Error → Error
  unknown_action_type : ℕ → Error
  job_not_allowed url_not_allowed job_required : ℕ → String → Error
  url_required : ℕ → Error
  action_url expected_status_invalid : ℕ → Error → Error
  allowed_host_regex_invalid blocked_host_regex_invalid : ℕ → String → Error → Error
  image_required script_xor_command args_with_script : ℕ → Error
  empty_string : ℕ → String → ℕ → Error
  env_name_required env_value_xor_value_from env_secret_required : ℕ → ℕ → Error
  volume_name_required volume_source : ℕ → ℕ → Error
  volume_duplicated : ℕ → ℕ → String → Error
  volume_secret_required volume_config_map_required : ℕ → ℕ → Error
  mount_name_required mount_path_required : ℕ → ℕ → Error
  mount_undefined : ℕ → ℕ → String → Error
  job_timeout_invalid : ℕ → Error → Error
  log_tail_negative : ℕ → Error
  bad_scheme host_required : Error
  -- internal/engine/http_executor.go
  expected_status_regex : Error → Error
  call_failed : ℕ → String → Error
  attempts_exhausted : ℕ → Error
  target_url_invalid : Error → Error
  target_host_empty : Error
  host_blocked_by_default host_blocked host_not_allowed : String → Error
  url_policy_regex : String → Error → Error
  ca_secret_empty : String → String → String → Error
  ca_pem_invalid client_cert_missing : String → String → Error
  -- internal/engine/executor.go
  unsupported_action_type : String → Error
  -- internal/engine/job_executor.go
  job_spec_missing job_command_required : Error
  -- api/v1alpha1/resourceaction_webhook.go
  not_a_resource_action : Error
  invalid_resource_action : String → Error → Error
  -- internal/engine/engine.go
  resolve_gvr add_event_handler_failed : Error → Error
  kind_not_found : String → String → Error
  -- internal/controller/resourceaction_controller.go
  engine_not_configured : Error
  executor_not_k8s : Error
  -- cmd/main.go
  setup_failed : String → Error → Error
  scheme_panic : Error → Error
