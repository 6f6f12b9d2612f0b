-- ===== src/Runtime.antt =====
-- What the program does through other code: the Kubernetes client, the network, the clock and the
-- random numbers, as operations on a state of the world of which nothing is known. An operation may
-- be any function; a theorem that needs more states it as a hypothesis.
pub mod Frame
use resource_action_operator.Prelude.{ℕ, String, Option, List, Bool, Result, ok, err, Check, Error}
use resource_action_operator.Prelude.Int.{ℤ}
use resource_action_operator.Api.{ResourceAction, ActionSpec, JobSpec, ExecutionRecord, Condition}
use resource_action_operator.Kube.{KubeJob, Pod, GroupVersionResource, ApiResource}
use resource_action_operator.Matching.{MatchInput, GroupVersionKind}
use resource_action_operator.Metrics.Collectors.{Collector, Amount}

-- tls.Config, as far as the code sets it.
pub record TlsConfig : Type 0 where
  pub min_version : ℕ
  pub insecure_skip_verify : Bool
  pub server_name : String
  pub root_cas : Option String
  pub certificate : Option (String × String)

-- http.Transport, as far as the code sets it; durations in seconds.
pub record Transport : Type 0 where
  pub dial_timeout : ℕ
  pub keep_alive : ℕ
  pub force_attempt_http2 : Bool
  pub max_idle_conns : ℕ
  pub idle_conn_timeout : ℕ
  pub tls_handshake_timeout : ℕ
  pub tls_client_config : Option TlsConfig

-- http.Request: an empty body is no body.
pub record Request : Type 0 where
  pub method : String
  pub url : String
  pub headers : List (String × String)
  pub body : String

pub record Response : Type 0 where
  pub status_code : ℕ
  pub body : String

-- HTTPExecutionRecordMetrics: the figures of a run that are added to the metrics.
pub record RunFigures : Type 0 where
  pub action_count : ℕ
  pub attempts : ℤ
  pub network_retry_count : ℤ
  pub status_retry_count : ℤ
  pub backoff_millis : ℤ
  pub duration_millis : ℤ
  pub last_http_status : ℕ

-- A goroutine that the code starts.
pub data Task : Type 0 where
  track_job : ResourceAction → MatchInput → KubeJob → JobSpec → Task
  run_cron : ResourceAction → ActionSpec → MatchInput → Task
  start_factory : Task
  run_informer : GroupVersionResource → Task

-- The part of kubernetes.Interface that is used: of a namespace, a pod and a container the stream of
-- the last lines of the log, and what io.ReadAll gives of it.
pub record Clientset (W : Type 0) : Type 0 where
  pub stream_logs : String → String → String → ℤ → W → Result (W → Result String × W) × W

pub record Runtime (W : Type 0) : Type 0 where
  pub list_actions : W → Result (List ResourceAction) × W
  pub get_action : String → String → W → Result ResourceAction × W  -- by name and namespace
  pub update_status : ResourceAction → W → Check × W
  pub get_secret : String → String → W → Result (List (String × String)) × W
  -- retry.RetryOnConflict with retry.DefaultRetry, of a function that gets and updates
  pub retry_on_conflict : (W → Check × W) → W → Check × W
  -- the same, of the closure of setSpecCondition, which assigns the condition that it captures
  pub retry_condition :
      (Condition × W → Check × (Condition × W)) → Condition × W → Check × (Condition × W)
  -- the resources of a group and version that discovery lists
  pub server_resources : String → W → Result (List ApiResource) × W
  -- the informer of a resource gets handlers that report events of a kind
  pub add_event_handler : GroupVersionResource → GroupVersionKind → W → Check × W
  pub create_job : KubeJob → W → Result KubeJob × W  -- with the name that the server gives
  pub get_job : String → String → W → Result KubeJob × W  -- by name and namespace
  -- the pods of a namespace with the label job-name
  pub list_pods : String → String → W → Result (List Pod) × W
  pub clientset : Option (Clientset W)  -- kubernetes.Interface, or nil
  pub random_suffix : W → String × W  -- rand.String(5)
  pub start : Task → W → W  -- a go statement
  pub metrics_init : (W → W) → W → W  -- metricsInit.Do, of a sync.Once
  pub must_register : List Collector → W → W  -- ctrlmetrics.Registry.MustRegister
  -- Inc and Add of a counter, Observe of a histogram, with the values of the labels
  pub inc : Collector → List String → W → W
  pub add : Collector → List String → Amount → W → W
  pub observe : Collector → List String → Amount → W → W
  -- EventRecorder.Event: its type, its reason and its message
  pub record_event : ResourceAction → String → String → String → W → W
  pub send : Transport → ℤ → Request → W → Result Response × W  -- within a timeout
  pub clock : W → ℕ × W  -- time.Now, in milliseconds
  pub int63n : ℕ → W → ℕ × W  -- rng.Int63n
  pub sleep : ℤ → W → W  -- time.Sleep, of nanoseconds

-- An action that may fail. What it did to the world before stays done.
abbrev pub Io {ℓ} : Type 0 → Type ℓ → Type ℓ
Io W A = W → Result A × W

module _ {ℓ} {W : Type 0} {A : Type ℓ} where
  abbrev pub pure : A → Io W A
  pure a w = (ok a, w)

  abbrev pub lift : Result A → Io W A
  lift r w = (r, w)

module _ {ℓ κ} {W : Type 0} {A : Type ℓ} {B : Type κ} where
  abbrev pub continue : Result A → (A → Io W B) → Io W B
  continue (ok a) f w = f a w
  continue (err e) f w = (err e, w)

  infixl 5 ◌>>=◌
  abbrev pub ◌>>=◌ : Io W A → (A → Io W B) → Io W B
  ◌>>=◌ m f w = let (r, w') = m w in continue r f w'

infixl 5 ◌>>◌
abbrev pub ◌>>◌ {ℓ} : {W : Type 0} {B : Type ℓ} → Io W (Unit {0}) → Io W B → Io W B
m >> k = m >>= λ _. k
