-- ===== src/Api/Spec.antt =====
-- The specification of a ResourceAction (api/v1alpha1/resourceaction_types.go).
use resource_action_operator.Prelude.{String, Bool, List, Option}
use resource_action_operator.Prelude.Int.{ℤ}
use resource_action_operator.Api.Job.{JobSpec, ValueFrom, SecretKeyRef}

pub record ResourceSelector : Type 0 where
  pub group : String
  pub version : String
  pub kind : String

pub record LabelChangeFilter : Type 0 where
  pub key : String
  pub from : String
  pub to : String

pub record FilterSpec : Type 0 where
  pub labels : List (String × String)
  pub label_changes : List LabelChangeFilter
  pub name_regex : String
  pub namespace_regex : String

pub record RetrySpec : Type 0 where
  pub max_attempts : ℤ
  pub backoff : String
  pub max_backoff : String
  pub retry_on_network_error : Option Bool
  pub retry_on_status : List ℤ

pub record UrlPolicySpec : Type 0 where
  pub allow_unsafe_local_targets : Bool
  pub allowed_host_regex : List String
  pub blocked_host_regex : List String

pub record TlsClientCertRef : Type 0 where
  pub name : String
  pub cert_key : String
  pub key_key : String

pub record TlsSpec : Type 0 where
  pub insecure_skip_verify : Bool
  pub server_name : String
  pub ca_secret_ref : Option SecretKeyRef
  pub client_cert_secret_ref : Option TlsClientCertRef

pub record TemplateSpec : Type 0 where
  pub template : String

pub record ActionSpec : Type 0 where
  pub type : String
  pub method : String
  pub url : String
  pub url_policy : Option UrlPolicySpec
  pub headers : List (String × ValueFrom)
  pub body : Option TemplateSpec
  pub expected_status : String
  pub mode : String
  pub schedule : String
  pub timeout : String
  pub retry : Option RetrySpec
  pub tls : Option TlsSpec
  pub job : Option JobSpec

pub record ResourceActionSpec : Type 0 where
  pub selector : ResourceSelector
  pub events : List String
  pub filters : Option FilterSpec
  pub actions : List ActionSpec
