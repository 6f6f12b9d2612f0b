-- ===== src/Main.antt =====
-- The setup of the operator (cmd/main.go), with New of internal/engine/engine.go and NewK8sExecutor
-- of internal/engine/executor.go, and the registration of the types with the scheme
-- (api/v1alpha1/groupversion_info.go).
pub mod Steps
pub mod Tls
use resource_action_operator.Prelude.{
  String, Option, none, some, List, [], ◌∷◌, ◌++◌, Bool, true, false, not, ◌==◌, Result, ok, err,
  Check, Error, wrap, if◌then◌else◌, setup_failed, scheme_panic, executor_not_k8s,
}
use resource_action_operator.Runtime.{Io, pure, lift, continue, ◌>>=◌, ◌>>◌}
use resource_action_operator.Engine.{Engine, new_engine}

-- The flags, once they are parsed.
pub record Flags : Type 0 where
  pub metrics_addr : String
  pub probe_addr : String
  pub enable_leader_election : Bool
  pub secure_metrics : Bool
  pub enable_http2 : Bool
  pub enable_webhook : Bool
  pub webhook_cert_path : String
  pub webhook_cert_name : String
  pub webhook_cert_key : String
  pub metrics_cert_path : String
  pub metrics_cert_name : String
  pub metrics_cert_key : String

abbrev pub default_flags : Flags
default_flags = record {
  metrics_addr = "0";
  probe_addr = ":8081";
  enable_leader_election = false;
  secure_metrics = true;
  enable_http2 = false;
  enable_webhook = false;
  webhook_cert_path = "";
  webhook_cert_name = "tls.crt";
  webhook_cert_key = "tls.key";
  metrics_cert_path = "";
  metrics_cert_name = "tls.crt";
  metrics_cert_key = "tls.key";
}

-- A certificate watcher is named by the two files that it watches.
pub record CertFiles : Type 0 where
  pub cert : String
  pub key : String

-- tls.Config of a server, as far as the options set it.
pub record ServerTls : Type 0 where
  pub next_protos : List String
  pub certificate : Option CertFiles

-- A func(*tls.Config).
pub data TlsOption : Type 0 where
  disable_http2 : TlsOption
  get_certificate : CertFiles → TlsOption

unfoldable pub apply_option : TlsOption → ServerTls → ServerTls
apply_option disable_http2 c = record c { next_protos = "http/1.1" ∷ [] }
apply_option (get_certificate watcher) c = record c { certificate = some watcher }

-- metricsserver.Options; the filter asks for authentication and authorization.
pub record MetricsOptions : Type 0 where
  pub bind_address : String
  pub secure_serving : Bool
  pub authenticated : Bool
  pub tls_opts : List TlsOption

-- ctrl.Options
pub record ManagerOptions : Type 0 where
  pub metrics : MetricsOptions
  pub webhook_tls_opts : List TlsOption
  pub health_probe_bind_address : String
  pub leader_election : Bool
  pub leader_election_id : String

unfoldable pub tls_opts : Flags → List TlsOption
tls_opts flags = if not flags.enable_http2 then disable_http2 ∷ [] else []

unfoldable pub with_watcher : List TlsOption → Option CertFiles → List TlsOption
with_watcher opts none = opts
with_watcher opts (some watcher) = opts ++ get_certificate watcher ∷ []

unfoldable pub manager_options : Flags → Option CertFiles → Option CertFiles → ManagerOptions
unfolding tls_opts with_watcher
manager_options flags webhook_watcher metrics_watcher = record {
  metrics = record {
    bind_address = flags.metrics_addr;
    secure_serving = flags.secure_metrics;
    authenticated = flags.secure_metrics;
    tls_opts = with_watcher (tls_opts flags) metrics_watcher;
  };
  webhook_tls_opts = with_watcher (tls_opts flags) webhook_watcher;
  health_probe_bind_address = flags.probe_addr;
  leader_election = flags.enable_leader_election;
  leader_election_id = "4226e2fa.yusaozdemir.de";
}

-- A K8sExecutor, and a value of the interface Executor; a recorder is named by its component.
pub record K8sExecutor : Type 0 where
  pub has_clientset : Bool
  pub recorder : Option String

pub data Executor : Type 0 where
  k8s_executor : K8sExecutor → Executor
  other_executor : Executor

-- The recorders are the variadic parameter.
unfoldable pub new_k8s_executor : Bool → List String → K8sExecutor
new_k8s_executor has_clientset [] = record { has_clientset = has_clientset; recorder = none }
new_k8s_executor has_clientset (recorder ∷ rest) = record {
  has_clientset = has_clientset;
  recorder = some recorder;
}

-- What the setup asks of other code.
pub data Call : Type 0 where
  add_client_go_to_scheme : Call
  add_to_scheme : String → String → List String → Call  -- a group, a version and its types
  new_cert_watcher : CertFiles → Call
  get_config : Call
  new_manager : ManagerOptions → Call
  new_clientset new_dynamic_client new_discovery_client : Call
  complete_controller : String → Call  -- the builder of the controller of a name
  complete_webhook : Call
  add_runnable : CertFiles → Call  -- mgr.Add of a certificate watcher
  add_healthz_check add_readyz_check : String → Call
  start : Call

-- The types of api/v1alpha1, that its init function registers with the SchemeBuilder.
abbrev pub own_types : Call
own_types =
    add_to_scheme "ops.yusaozdemir.de" "v1alpha1" ("ResourceAction" ∷ "ResourceActionList" ∷ [])

-- `call` makes a call, and `join` is filepath.Join.
module _ {W : Type 0} (join : String → String → String) (call : Call → W → Check × W) where
  -- `setupLog.Error(err, message); os.Exit(1)` on an error.
  abbrev pub or_exit {ℓ} : {A : Type ℓ} → String → Io W A → Io W A
  or_exit message m w = let (r, w') = m w in (wrap (setup_failed message) r, w')

  abbrev pub or_panic : Io W (Unit {0}) → Io W (Unit {0})
  or_panic m w = let (r, w') = m w in (wrap scheme_panic r, w')

  unfoldable pub init : Io W (Unit {0})
  init = do or_panic (call add_client_go_to_scheme); or_panic (call own_types)

  abbrev pub cert_files : String → String → String → CertFiles
  cert_files path name key = record { cert = join path name; key = join path key }

  -- No watcher without a path.
  unfoldable pub watch_certs : String → String → CertFiles → Io W (Option CertFiles)
  watch_certs message path files =
      if path == ""
      then pure none
      else (do or_exit message (call (new_cert_watcher files)); pure (some files))

  abbrev pub check_executor : Executor → Result Engine
  check_executor (k8s_executor e) = ok new_engine
  check_executor other_executor = err executor_not_k8s

  -- New
  unfoldable pub new : Executor → Io W Engine
  new executor = do
    call new_dynamic_client
    call new_discovery_client
    lift (check_executor executor)

  unfoldable pub setup_webhook : Bool → Io W (Unit {0})
  setup_webhook enabled =
      if enabled then or_exit "unable to create webhook" (call complete_webhook) else pure tt

  -- The error of mgr.Add is dropped.
  unfoldable pub add_watcher : Option CertFiles → Io W (Unit {0})
  add_watcher none = pure tt
  add_watcher (some watcher) = λ w. (ok tt, (call (add_runnable watcher) w).1)

  unfoldable pub main : Flags → Io W (Unit {0})
  unfolding watch_certs manager_options new new_k8s_executor setup_webhook add_watcher
  main flags = do
    webhook_watcher ←
        watch_certs "failed to init webhook cert watcher" flags.webhook_cert_path
          (cert_files flags.webhook_cert_path flags.webhook_cert_name flags.webhook_cert_key)
    metrics_watcher ←
        watch_certs "failed to init metrics cert watcher" flags.metrics_cert_path
          (cert_files flags.metrics_cert_path flags.metrics_cert_name flags.metrics_cert_key)
    call get_config
    or_exit "unable to start manager"
        (call (new_manager (manager_options flags webhook_watcher metrics_watcher)))
    or_exit "unable to create kubernetes clientset" (call new_clientset)
    eng ←
        or_exit "unable to create event engine"
          (new (k8s_executor (new_k8s_executor true ("resource-action-operator" ∷ []))))
    or_exit "unable to create controller" (call (complete_controller "resourceaction"))
    setup_webhook flags.enable_webhook
    add_watcher metrics_watcher
    add_watcher webhook_watcher
    or_exit "unable to set up health check" (call (add_healthz_check "healthz"))
    or_exit "unable to set up ready check" (call (add_readyz_check "readyz"))
    or_exit "problem running manager" (call start)

  -- The whole program: the init function of the package, then main.
  unfoldable pub program : Flags → Io W (Unit {0})
  unfolding init main
  program flags = do init; main flags
