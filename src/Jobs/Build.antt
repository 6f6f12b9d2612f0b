-- ===== src/Jobs/Build.antt =====
-- buildJobForAction and jobGenerateName (internal/engine/job_executor.go): the Kubernetes Job of a
-- job action.
pub mod WellFormed
pub mod Named
use Prim.Native.Char.{Char, code}
use Prim.Native.String.{len, slice, ◌++◌}
use resource_action_operator.Prelude.{
  ℕ, String, Option, none, some, List, [], ◌∷◌, map, Bool, true, false, not, ◌&&◌, ◌==◌, eqb, ltb,
  Result, ok, ◌>>=◌, if◌then◌else◌, ◌*◌,
}
use resource_action_operator.Prelude.Int.{ℤ, pos, negsuc, quot, ltb_ℤ}
use resource_action_operator.Prelude.Text.{to_lower, itoa}
use resource_action_operator.Api.{
  ResourceAction, ActionSpec, JobSpec, JobEnvVar, JobVolume, JobVolumeMount, JobSecretVolume,
  JobConfigMapVolume, SecretKeyRef, ValueFrom,
}
use resource_action_operator.Std.{Std}
use resource_action_operator.Kube.{
  EnvVar, VolumeSource, no_source, Volume, VolumeMount, Container, PodSpec, KubeJob,
}
use resource_action_operator.Kube
use resource_action_operator.Matching.{MatchInput, event_text}
use resource_action_operator.Http.Backoff.{second, parse_duration_default}
use resource_action_operator.Jobs.Command.{resolve_job_command}

-- The reference of `item.ValueFrom != nil && item.ValueFrom.SecretKeyRef != nil`.
abbrev pub secret_ref : Option ValueFrom → Option SecretKeyRef
secret_ref none = none
secret_ref (some from) = from.secret_key_ref

abbrev pub env_value : Option SecretKeyRef → String → String
env_value none value = value
env_value (some ref) value = ""

unfoldable pub build_env_var : JobEnvVar → EnvVar
build_env_var item = record {
  name = item.name;
  value = env_value (secret_ref item.value_from) item.value;
  secret_key_ref = secret_ref item.value_from;
}

abbrev pub volume_source : Option JobSecretVolume → Option JobConfigMapVolume → VolumeSource
volume_source (some s) config_map = VolumeSource.secret s.secret_name
volume_source none (some c) = VolumeSource.config_map c.name
volume_source none none = no_source

unfoldable pub build_volume : JobVolume → Volume
build_volume item = record { name = item.name; source = volume_source item.secret item.config_map }

abbrev pub bool_or : Bool → Option Bool → Bool
bool_or d none = d
bool_or d (some b) = b

abbrev pub int_or : ℤ → Option ℤ → ℤ
int_or d none = d
int_or d (some n) = n

unfoldable pub build_volume_mount : JobVolumeMount → VolumeMount
build_volume_mount item = record {
  name = item.name;
  mount_path = item.mount_path;
  read_only = bool_or true item.read_only;
}

-- `int64(d.Seconds())`, rounded towards zero, and 30 where that is not positive. The source goes
-- through a float64, which is exact enough below 2^23 seconds.
unfoldable pub deadline_seconds : Std → String → ℤ
unfolding parse_duration_default quot
deadline_seconds std timeout =
    let seconds = quot (parse_duration_default std timeout (pos (30 * second))) second in
    if ltb_ℤ (pos 0) seconds then seconds else pos 30

-- Each `_` and `.` becomes a dash.
unfoldable pub dashed : String → String
dashed String.[] = String.[]
dashed (String.◌∷◌ c s) =
    let rest = dashed s in
    if eqb (code c) b'_'
    then "-" ++ rest
    else if eqb (code c) b'.'
    then "-" ++ rest
    else String.◌∷◌ c rest

unfoldable pub trim_dashes_left : String → String
trim_dashes_left String.[] = String.[]
trim_dashes_left (String.◌∷◌ c s) =
    let rest = trim_dashes_left s in if eqb (code c) b'-' then rest else String.◌∷◌ c s

unfoldable pub trim_dashes_right : String → String
trim_dashes_right String.[] = String.[]
trim_dashes_right (String.◌∷◌ c s) =
    let rest = trim_dashes_right s in
    if eqb (code c) b'-' && rest == "" then "" else String.◌∷◌ c rest

-- `name[:36]` of a name of more than 36 bytes; the names of resources are ASCII.
unfoldable pub cut_name : String → String
cut_name name =
    let short = if ltb 36 (len name) then slice name 0 36 else name in
    if short == "" then "resource-action" else short

-- `suffix` is rand.String(5).
unfoldable pub job_generate_name : Std → String → String → ℕ → String
unfolding to_lower dashed trim_dashes_left trim_dashes_right cut_name itoa
job_generate_name std suffix resource_action_name action_index =
    let name = dashed (to_lower std.lower_rune resource_action_name) in
    cut_name (trim_dashes_right (trim_dashes_left name))
    ++ ("-a" ++ (itoa action_index ++ ("-" ++ (suffix ++ "-"))))

unfoldable pub build_container : JobSpec → List String × List String → Container
unfolding build_env_var build_volume_mount
build_container job (command, args) = record {
  name = "runner";
  image = job.image;
  image_pull_policy = "IfNotPresent";
  command = command;
  args = args;
  env = map build_env_var job.env;
  volume_mounts = map build_volume_mount job.volume_mounts;
  security_context = record {
    allow_privilege_escalation = false;
    run_as_non_root = not (bool_or false job.allow_run_as_root);
    read_only_root_filesystem = false;
    drop = "ALL" ∷ [];
  };
  resources = job.resources;
}

unfoldable pub build_pod_spec : JobSpec → List String × List String → PodSpec
unfolding build_container build_volume
build_pod_spec job program = record {
  restart_policy = "Never";
  automount_service_account_token = bool_or false job.automount_service_account_token;
  service_account_name = job.service_account_name;
  containers = build_container job program ∷ [];
  volumes = map build_volume job.volumes;
  enable_service_links = false;
  termination_grace_period_seconds = pos 0;
}

abbrev label_prefix : String
label_prefix = "resource-action-operator.yusaozdemir.de/"

-- UnixMilli of the zero time.Time: January 1, year 1.
abbrev zero_time : ℤ
zero_time = negsuc 62135596799999

-- The Job around its program; `suffix` is rand.String(5).
unfoldable pub assemble_job :
    Std
    → String
    → ResourceAction
    → ℕ
    → String
    → JobSpec
    → MatchInput
    → List String × List String
    → KubeJob
unfolding build_pod_spec deadline_seconds job_generate_name event_text
assemble_job std suffix ra action_index type job input program = record {
  name = "";
  namespace = ra.namespace;
  generate_name = job_generate_name std suffix ra.name action_index;
  labels =
      ("app.kubernetes.io/managed-by", "resource-action-operator")
      ∷ (label_prefix ++ "name", ra.name)
      ∷ (label_prefix ++ "type", type)
      ∷ (label_prefix ++ "event", to_lower std.lower_rune (event_text input.event))
      ∷ [];
  backoff_limit = int_or (pos 0) job.backoff_limit;
  ttl_seconds_after_finished = int_or (pos 300) job.ttl_seconds_after_finished;
  active_deadline_seconds = deadline_seconds std job.timeout;
  template = record {
    labels = (label_prefix ++ "name", ra.name) ∷ [];
    spec = build_pod_spec job program;
  };
  status = record { active = pos 0; start_time = none; completion_time = none; conditions = [] };
  creation_timestamp = zero_time;
}

-- The part of buildJobForAction behind `job := action.Job`.
unfoldable pub build_job_for_action :
    Std → String → ResourceAction → ℕ → String → JobSpec → MatchInput → Result KubeJob
unfolding assemble_job
build_job_for_action std suffix ra action_index type job input = do
  program ← resolve_job_command job
  ok (assemble_job std suffix ra action_index type job input program)
