-- ===== src/Writes.antt =====
-- The status of a ResourceAction while others write it as well: the closures that Execute of
-- internal/engine/executor.go, updateJobExecutionRecord of internal/engine/job_executor.go and
-- setSpecCondition of internal/controller/resourceaction_controller.go give to RetryOnConflict,
-- against an API server that compares resource versions.
pub mod Atomic
pub mod Conditioned
use resource_action_operator.Prelude.{
  ℕ, ◌≡◌, String, Option, none, some, List, [], ◌∷◌, map, Bool, ◌&&◌, ◌==◌, ok, Check,
  if◌then◌else◌,
}
use resource_action_operator.Api.{ResourceAction, ExecutionRecord, JobExecutionRecord, Condition}
use resource_action_operator.Std.{Std}
use resource_action_operator.Runtime.{Runtime}
use resource_action_operator.Matching.{MatchInput}
use resource_action_operator.Executor.Status.{record_run, update_once}
use resource_action_operator.Jobs.Track.{put_job_record, with_executions, update_job_once}

abbrev pub is_named : String → String → ResourceAction → Bool
is_named name namespace ra = ra.name == name && ra.namespace == namespace

-- The resource of a name, and the resources once the status of one is updated to a new version.
unfoldable pub find_named : String → String → List ResourceAction → Option ResourceAction
find_named name namespace [] = none
find_named name namespace (ra ∷ ras) =
    if is_named name namespace ra then some ra else find_named name namespace ras

abbrev pub commit : String → ResourceAction → List ResourceAction → List ResourceAction
commit version new = map (λ ra.
    if is_named new.name new.namespace ra
    then record ra { status = new.status; resource_version = version }
    else ra)

-- An update of the resources to a new version of one of them, made from its current version.
abbrev pub Commits :
    List ResourceAction → ResourceAction → ResourceAction → List ResourceAction → Type 0
Commits before latest new after =
    (version : String) × (find_named latest.name latest.namespace before ≡ some latest)
    × (after ≡ commit version new before)

-- What is written: a run, or a report on a Job.
pub data Write : Type 0 where
  run_write : ExecutionRecord → Check → Write
  report_write : MatchInput → JobExecutionRecord → Write

module _ {W : Type 0} (rt : Runtime W) (stored : W → List ResourceAction)
    (Was : W → ResourceAction → Type 0) where
  -- What the code relies on of the Kubernetes API while others write ResourceActions too. The world
  -- that a call leaves has what they write before the next call, except that an update leaves the
  -- world of its own moment; `Was w ra` says that `ra` is or was a stored version. Get reads a version
  -- of the resource that it names. An update that has the resource version of one is accepted only
  -- while that one is current, and gives the resource a new version. RetryOnConflict succeeds only if
  -- the last call of its function does, and what every call keeps of a captured variable holds at it.
  pub record IsServer : Type 1 where
    pub read :
        (name namespace : String) (w : W) (latest : ResourceAction)
        → (rt.get_action name namespace w).0 ≡ ok latest
        → Was (rt.get_action name namespace w).1 latest
          × ((latest.name ≡ name) × (latest.namespace ≡ namespace))
    pub later : (w : W) (ra : ResourceAction) → Was w ra → Was (rt.clock w).1 ra
    pub accepted :
        (w : W) (latest new : ResourceAction)
        → Was w latest
        → new.name ≡ latest.name
        → new.namespace ≡ latest.namespace
        → new.resource_version ≡ latest.resource_version
        → (rt.update_status new w).0 ≡ ok tt
        → Commits (stored w) latest new (stored (rt.update_status new w).1)
    pub retried :
        (f : W → Check × W) (w : W)
        → (rt.retry_on_conflict f w).0 ≡ ok tt
        → (v : W) × (f v ≡ rt.retry_on_conflict f w)
    pub retried_condition :
        (f : Condition × W → Check × (Condition × W)) (P : Condition → Type 0) (s : Condition × W)
        → P s.0
        → ((s' : Condition × W) → P s'.0 → P (f s').1.0)
        → (rt.retry_condition f s).0 ≡ ok tt
        → (s' : Condition × W) × P s'.0 × (f s' ≡ rt.retry_condition f s)

module _ {W : Type 0} (std : Std) (rt : Runtime W) where
  -- The closure of a write, and what it makes of the latest version.
  unfoldable pub closure : Write → ResourceAction → W → Check × W
  closure (run_write exec result) ra = update_once std rt ra exec result
  closure (report_write input r) ra = update_job_once rt ra input r

  unfoldable pub effect : Write → ℕ → ResourceAction → ResourceAction
  unfolding record_run
  effect (run_write exec result) now latest = record_run std exec result now latest
  effect (report_write input r) now latest =
      with_executions rt latest (put_job_record input now r latest.status.executions)
