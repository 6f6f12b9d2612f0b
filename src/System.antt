-- ===== src/System.antt =====
-- The goroutines of the operator together: the critical sections of the engine and of its cron engine
-- (internal/engine/engine.go, internal/engine/cron_engine.go) as steps on what they share, in any
-- order, and the handlers that run through them.
pub mod Safe
pub mod Handlers
use resource_action_operator.Prelude.{ℕ, String, List, Bool, Result}
use resource_action_operator.Api.{ResourceAction, ActionSpec, JobSpec}
use resource_action_operator.Std.{Std}
use resource_action_operator.Kube.{GroupVersionResource, KubeJob}
use resource_action_operator.Runtime.{Runtime}
use resource_action_operator.Matching.{MatchInput, GroupVersionKind}
use resource_action_operator.Cron.{CronKey, register, cron_tick}
use resource_action_operator.Jobs.Track.{Wake, track_round}
use resource_action_operator.Engine.{Engine, after_mapping, on_event}
use resource_action_operator.Controller.{reconcile}

-- What the goroutines share: the engine, the keys of its cron engine, and the world.
pub record System (W : Type 0) : Type 0 where
  pub engine : Engine
  pub jobs : List CronKey
  pub world : W

module _ {W : Type 0} (std : Std) (rt : Runtime W) where
  -- EnsureWatching holds the mutex of the engine behind the discovery, whose result may be of any
  -- earlier time; EnsureForMatch holds that of the cron engine for each registration. All else that a
  -- goroutine or another program does touches the world only.
  pub data Step (s : System W) : System W → Type 0 where
    watch :
        (gvk : GroupVersionKind) (mapped : Result GroupVersionResource)
        → Step s (
            let (result, (e, w)) = after_mapping std rt gvk s.engine (mapped, s.world) in
            record s { engine = e; world = w })
    registration :
        (input : MatchInput) (ra : ResourceAction) (i : ℕ) (action : ActionSpec)
        → Step s (
            let (jobs, w) = register std rt input ra i action (s.jobs, s.world) in
            record s { jobs = jobs; world = w })
    elsewhere : (w : W) → Step s (record s { world = w })

  pub data Reach (s : System W) : System W → Type 0 where
    here : Reach s s
    next : {t u : System W} → Reach s t → Step t u → Reach s u

  pub trans : {s t u : System W} → Reach s t → Reach t u → Reach s u
  trans r here = r
  trans r (next q step) = next (trans r q) step

-- What a goroutine of the operator runs: a reconciliation, an event, a tick of a cron action, or a
-- wake of the tracking of a Job.
pub data Handler : Type 0 where
  reconciles : Bool → String → String → Handler
  handles : MatchInput → Handler
  ticks : ResourceAction → ActionSpec → MatchInput → Handler
  wakes : ResourceAction → MatchInput → KubeJob → JobSpec → Wake → Handler

-- The system after a handler that runs alone.
unfoldable pub run_handler : {W : Type 0} → Std → Runtime W → Bool → Handler → System W → System W
run_handler std rt has_recorder (reconciles has_engine name namespace) s =
    let (result, (e, w)) = reconcile std rt has_engine name namespace (s.engine, s.world) in
    record s { engine = e; world = w }
run_handler std rt has_recorder (handles input) s =
    let (jobs, w) = on_event std rt has_recorder input (s.jobs, s.world) in
    record s { jobs = jobs; world = w }
run_handler std rt has_recorder (ticks ra action input) s = record s {
  world = (cron_tick std rt has_recorder ra action input s.world).1;
}
run_handler std rt has_recorder (wakes ra input job spec wake) s = record s {
  world = (track_round rt ra input job spec wake s.world).1;
}
