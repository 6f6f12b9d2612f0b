-- ===== src/Examples/Sample.antt =====
-- A concrete standard library and a concrete world, for the tests: a few texts are parsed, and the
-- world keeps the stored ResourceActions, the requests and the events.
use resource_action_operator.Prelude.{
  ℕ, ◌+◌, String, Bool, none, some, List, [], ◌∷◌, map, true, false, ◌&&◌, ◌==◌, eqb, length,
  Result, ok, err, external, if◌then◌else◌,
}
use Prim.Native.String.{len, slice, ◌++◌}
use resource_action_operator.Prelude.Int.{ℤ, pos}
use resource_action_operator.Api.{
  ResourceAction, ActionSpec, JobSpec, ResourceActionSpec, FilterSpec,
}
use resource_action_operator.Std.{Std, Url, v4, Regexp, Unstructured}
use resource_action_operator.Runtime.{Runtime, Request}
use resource_action_operator.Kube.{KubeJob}
use resource_action_operator.Metrics.Collectors.{Collector, Amount, units}
use mathlib.Core.List
use resource_action_operator.Matching.{MatchInput, update}

abbrev pub sample_compile : String → Result Regexp
sample_compile pattern =
    if pattern == "("
    then err (external "missing closing )")
    else if pattern == "^2..$"
    then ok (λ s. eqb (len s) 3 && slice s 0 1 == "2")
    else ok (λ s. s == pattern)

abbrev pub sample_url : String → Result Url
sample_url raw =
    if raw == "https://api.example.com/hook"
    then ok (record { scheme = "https"; hostname = "API.example.com" })
    else if raw == "http://127.0.0.1:8080/hook"
    then ok (record { scheme = "http"; hostname = "127.0.0.1" })
    else err (external "no URL")

abbrev pub sample_duration : String → Result ℤ
sample_duration s =
    if s == "30s" then ok (pos 30_000_000_000) else err (external "invalid duration")

abbrev pub sample_std : Std
sample_std = record {
  compile = sample_compile;
  parse_url = sample_url;
  parse_duration = sample_duration;
  parse_ip = λ host. if host == "10.1.2.3" then some (v4 10 1 2 3) else none;
  parse_template = λ template. ok (λ obj. ok template);
  lower_rune = λ c. c;
  canonical_header = λ key. key;
  new_request = λ method url. ok tt;
  append_certs = λ pem. true;
  key_pair = λ cert key. ok tt;
  is_timeout = λ e. false;
  error_text = λ e. "error";
  is_not_found = λ e. false;
  group_version = λ group version. if group == "" then version else group ++ ("/" ++ version);
}

-- An amount that a collector is given for values of its labels.
pub record Given : Type 0 where
  pub collector : Collector
  pub labels : List String
  pub amount : Amount

pub record World : Type 0 where
  pub stored : List ResourceAction
  pub sent : List Request
  pub jobs : List KubeJob
  pub events : List String
  pub time : ℕ
  pub collectors : List Collector
  pub registered : Bool
  pub given : List Given

-- The stored version of a resource, and the store with its status replaced.
abbrev pub find_action : String → String → List ResourceAction → Result ResourceAction
find_action name namespace [] = err (external "not found")
find_action name namespace (ra ∷ ras) =
    if ra.name == name && ra.namespace == namespace then ok ra else find_action name namespace ras

abbrev pub replace_status : ResourceAction → List ResourceAction → List ResourceAction
replace_status new = map (λ ra.
    if ra.name == new.name && ra.namespace == new.namespace
    then record ra { status = new.status }
    else ra)

abbrev pub give : Collector → List String → Amount → World → World
give c labels amount w =
    let g : Given = record { collector = c; labels = labels; amount = amount } in
    record w { given = List.◌++◌ w.given (g ∷ []) }

abbrev pub init_once : Bool → (World → World) → World → World
init_once true f w = w
init_once false f w = record (f w) { registered = true }

-- The first request gets a 503, later ones a 200.
abbrev pub sample_runtime : Runtime World
sample_runtime = record {
  list_actions = λ w. (ok w.stored, w);
  get_action = λ name namespace w. (find_action name namespace w.stored, w);
  update_status = λ ra w. (ok tt, record w { stored = replace_status ra w.stored });
  get_secret = λ name namespace w. (ok (("token", "secret") ∷ []), w);
  retry_on_conflict = λ f w. f w;
  retry_condition = λ f s. f s;
  server_resources = λ gv w. (ok (record { name = "deployments"; kind = "Deployment" } ∷ []), w);
  add_event_handler = λ gvr gvk w. (ok tt, w);
  create_job = λ job w. (ok (record job { name = "job-1" }), record w { jobs = job ∷ w.jobs });
  get_job = λ name namespace w. (err (external "not found"), w);
  list_pods = λ namespace name w. (ok [], w);
  clientset = none;
  random_suffix = λ w. ("abcde", w);
  start = λ task w. w;
  metrics_init = λ f w. init_once w.registered f w;
  must_register = λ collectors w. record w { collectors = List.◌++◌ w.collectors collectors };
  inc = λ c labels w. give c labels (units (pos 1)) w;
  add = λ c labels amount w. give c labels amount w;
  observe = λ c labels amount w. give c labels amount w;
  record_event = λ ra event_type reason message w. record w { events = message ∷ w.events };
  send = λ transport timeout request w. (
    ok (record { status_code = if eqb (length w.sent) 0 then 503 else 200; body = "" }),
    record w { sent = request ∷ w.sent },
  );
  clock = λ w. (w.time, record w { time = w.time + 1 });
  int63n = λ n w. (0, w);
  sleep = λ duration w. w;
}

abbrev pub plain_action : ActionSpec
plain_action = record {
  type = "http";
  method = "";
  url = "https://api.example.com/hook";
  url_policy = none;
  headers = [];
  body = none;
  expected_status = "";
  mode = "once";
  schedule = "";
  timeout = "";
  retry = some (record {
    max_attempts = pos 3;
    backoff = "";
    max_backoff = "30s";
    retry_on_network_error = none;
    retry_on_status = [];
  });
  tls = none;
  job = none;
}

abbrev pub cron_action : ActionSpec
cron_action = record plain_action { mode = "cron"; schedule = "30s" }

abbrev pub sample_job : JobSpec
sample_job = record {
  image = "bash:5.2";
  command = [];
  args = [];
  script = "echo created";
  interpreter_command = [];
  env =
      record {
        name = "TOKEN";
        value = "";
        value_from = some (record { secret_key_ref = some (record { name = "s"; key = "k" }) });
      }
      ∷ [];
  volumes =
      record { name = "tls"; secret = some (record { secret_name = "cert" }); config_map = none }
      ∷ [];
  volume_mounts = record { name = "tls"; mount_path = "/tls"; read_only = none } ∷ [];
  service_account_name = "";
  allow_run_as_root = none;
  automount_service_account_token = none;
  timeout = "30s";
  log_tail_lines = some (pos 10);
  ttl_seconds_after_finished = none;
  backoff_limit = none;
  resources = none;
}

abbrev pub job_action : ActionSpec
job_action = record plain_action { type = "job"; url = ""; job = some sample_job }

abbrev pub sample_filter : FilterSpec
sample_filter = record {
  labels = ("app", "web") ∷ ("tier", "front") ∷ [];
  label_changes = record { key = "ready"; from = ""; to = "*" } ∷ [];
  name_regex = "web-1";
  namespace_regex = "";
}

abbrev pub sample_spec : ResourceActionSpec
sample_spec = record {
  selector = record { group = "apps"; version = "v1"; kind = "Deployment" };
  events = "update" ∷ [];
  filters = some sample_filter;
  actions = plain_action ∷ cron_action ∷ job_action ∷ [];
}

abbrev pub sample_action : ResourceAction
sample_action = record {
  name = "deployment-webhook";
  namespace = "default";
  resource_version = "1";
  generation = pos 1;
  spec = sample_spec;
  status = record { executions = []; last_error = ""; conditions = [] };
}

abbrev pub old_object : Unstructured
old_object = record {
  uid = "uid-1";
  name = "web-1";
  namespace = "default";
  labels = ("tier", "front") ∷ ("app", "web") ∷ [];
  object = "{}";
}

abbrev pub sample_input : MatchInput
sample_input = record {
  event = update;
  gvk = record { group = "apps"; version = "v1"; kind = "Deployment" };
  obj = record old_object { labels = ("ready", "yes") ∷ old_object.labels };
  old_obj = some old_object;
}

abbrev pub start_world : World
start_world = record {
  stored = sample_action ∷ [];
  sent = [];
  jobs = [];
  events = [];
  time = 1000;
  collectors = [];
  registered = false;
  given = [];
}
