-- ===== src/Cron.antt =====
-- The cron engine (internal/engine/cron_engine.go): which cron actions an event registers, and what
-- a registered one does at its ticks.
pub mod Registered
pub mod Ticks
use resource_action_operator.Prelude.{
  ℕ, zero, suc, String, List, [], ◌∷◌, Bool, true, false, not, ◌&&◌, ◌==◌, eqb, any, Result, ok,
  err, Check, if◌then◌else◌,
}
use resource_action_operator.Prelude.Int.{ℤ}
use resource_action_operator.Api.{ResourceAction, ActionSpec}
use resource_action_operator.Std.{Std}
use resource_action_operator.Runtime.{Runtime, run_cron}
use resource_action_operator.Matching.{
  MatchInput, EventType, create, update, delete, event_text, concerns,
}
use resource_action_operator.Validation.Spec.{is_scheduled}
use resource_action_operator.Executor.Run.{execute}

pub record CronKey : Type 0 where
  pub resource_action : String
  pub resource_uid : String
  pub action_index : ℕ
  pub event : EventType

-- The equality of the keys of the map `jobs`.
unfoldable pub same_key : CronKey → CronKey → Bool
unfolding event_text
same_key a b =
    a.resource_action == b.resource_action
    && a.resource_uid == b.resource_uid
    && eqb a.action_index b.action_index
    && event_text a.event == event_text b.event

-- The map `jobs` is the list of its keys; the cancel functions that it holds are never called.
unfoldable pub is_registered : List CronKey → CronKey → Bool
unfolding same_key
is_registered jobs key = any (λ k. same_key k key) jobs

unfoldable pub cron_key : ResourceAction → MatchInput → ℕ → CronKey
cron_key ra input i = record {
  resource_action = ra.name;
  resource_uid = input.obj.uid;
  action_index = i;
  event = input.event;
}

module _ {W : Type 0} (std : Std) (rt : Runtime W) (input : MatchInput) where
  -- The end of the body of the loop over the actions.
  unfoldable pub register : ResourceAction → ℕ → ActionSpec → List CronKey × W → List CronKey × W
  unfolding is_registered cron_key
  register ra i action (jobs, w) =
      if is_registered jobs (cron_key ra input i)
      then (jobs, w)
      else (cron_key ra input i ∷ jobs, rt.start (run_cron ra action input) w)

  unfoldable pub ensure_action :
      ResourceAction → ℕ → ActionSpec → List CronKey × W → List CronKey × W
  unfolding register
  ensure_action ra i action s =
      if not (is_scheduled action)
      then s
      else if action.schedule == ""
      then s
      else register ra i action s

  unfoldable pub ensure_actions :
      ResourceAction → ℕ → List ActionSpec → List CronKey × W → List CronKey × W
  unfolding ensure_action
  ensure_actions ra i [] s = s
  ensure_actions ra i (action ∷ actions) s =
      ensure_actions ra (suc i) actions (ensure_action ra i action s)

  unfoldable pub ensure_all : List ResourceAction → List CronKey × W → List CronKey × W
  unfolding ensure_actions
  ensure_all [] s = s
  ensure_all (ra ∷ ras) s =
      ensure_all ras (if concerns std ra input then ensure_actions ra 0 ra.spec.actions s else s)

  abbrev pub after_list :
      List CronKey → Result (List ResourceAction) × W → Check × (List CronKey × W)
  after_list jobs (err e, w) = (err e, (jobs, w))
  after_list jobs (ok ras, w) = (ok tt, ensure_all ras (jobs, w))

  -- EnsureForMatch, one call at a time.
  unfoldable pub ensure_for_match : List CronKey × W → Check × (List CronKey × W)
  unfolding ensure_all concerns
  ensure_for_match (jobs, w) = after_list jobs (rt.list_actions w)

module _ {W : Type 0} (std : Std) (rt : Runtime W) (has_recorder : Bool) (ra : ResourceAction)
    (action : ActionSpec) (input : MatchInput) where
  -- Does the goroutine go on after a tick? A deleted object is not looked up.
  abbrev pub still_wanted : Result ResourceAction → Bool
  still_wanted (ok latest) = true
  still_wanted (err e) = false

  abbrev pub look_up : EventType → W → Bool × W
  look_up delete w = (true, w)
  look_up _ w = let (found, w') = rt.get_action ra.name ra.namespace w in (still_wanted found, w')

  -- The result of Execute is dropped.
  unfoldable pub cron_tick : W → Bool × W
  unfolding execute
  cron_tick w =
      let (wanted, w') = look_up input.event w in
      let (result, w'') = execute std rt has_recorder input w' in
      if wanted then (true, w'') else (false, w')

  -- The loop, over a number of ticks: nothing cancels the context.
  unfoldable pub cron_ticks : ℕ → W → W
  unfolding cron_tick
  cron_ticks zero w = w
  cron_ticks (suc n) w =
      let (goes_on, w') = cron_tick w in let rest = cron_ticks n w' in if goes_on then rest else w'

  abbrev pub after_parse : ℕ → Result ℤ → W → W
  after_parse n (err e) w = w
  after_parse n (ok duration) w = cron_ticks n w

  -- runCron until its n-th tick. Where the duration is not positive, time.NewTicker panics, and the
  -- number of ticks is 0.
  unfoldable pub run_cron_until : ℕ → W → W
  unfolding cron_ticks
  run_cron_until n w = after_parse n (std.parse_duration action.schedule) w
