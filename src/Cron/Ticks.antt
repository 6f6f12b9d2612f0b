-- ===== src/Cron/Ticks.antt =====
-- What the ticks of a cron action do (runCron of internal/engine/cron_engine.go).
use resource_action_operator.Prelude.{
  ℕ, zero, suc, ◌≡◌, refl, ap, ◌∙◌, List, All, Bool, true, false, Result, ok, err, if◌then◌else◌,
}
use resource_action_operator.Prelude.Int.{ℤ}
use resource_action_operator.Api.{ResourceAction, ActionSpec}
use resource_action_operator.Std.{Std}
use resource_action_operator.Runtime.{Runtime}
use resource_action_operator.Matching.{MatchInput, EventType, create, update, delete}
use resource_action_operator.Executor.Run.{execute}
use resource_action_operator.Executor.Run.Effects.{IsIdle, execute_all_idle}
use resource_action_operator.Cron.{look_up, cron_tick, cron_ticks, after_parse, run_cron_until}

module _ {W : Type 0} (std : Std) (rt : Runtime W) (has_recorder : Bool) (ra : ResourceAction)
    (action : ActionSpec) (input : MatchInput) (ras : List ResourceAction) (w : W) where
  -- Reading from the cluster leaves the world as it is, and the list is this one.
  pub record IsQuiet : Type 0 where
    pub listed : rt.list_actions w ≡ (ok ras, w)
    pub found : (rt.get_action ra.name ra.namespace w).1 ≡ w
    pub idle : All (IsIdle std input) ras

  look_up_quiet :
      (event : EventType) → IsQuiet → (look_up std rt has_recorder ra action input event w).1 ≡ w
  look_up_quiet create q = q.found
  look_up_quiet update q = q.found
  look_up_quiet delete q = refl

  execute_quiet : IsQuiet → execute std rt has_recorder input w ≡ (ok tt, w)
  unfolding execute
  execute_quiet q = rw (q.listed) (execute_all_idle std rt has_recorder input ras w q.idle)

module _ {W : Type 0} (std : Std) (rt : Runtime W) (has_recorder : Bool) (ra : ResourceAction)
    (action : ActionSpec) (input : MatchInput) (ras : List ResourceAction) (w : W) where
  abbrev run_wanted : Bool × W → W
  run_wanted (wanted, w') =
      let next : Bool × W =
        if wanted then (true, (execute std rt has_recorder input w').1) else (false, w') in
      next.1

  run_wanted_quiet :
      IsQuiet std rt has_recorder ra action input ras w
      → (p : Bool × W) → p.1 ≡ w
      → run_wanted p ≡ w
  run_wanted_quiet q (true, w') e =
      ap (λ x. (execute std rt has_recorder input x).1) e
      ∙ ap (λ p. p.1) (execute_quiet std rt has_recorder ra action input ras w q)
  run_wanted_quiet q (false, w') e = e

  tick_quiet :
      IsQuiet std rt has_recorder ra action input ras w
      → (cron_tick std rt has_recorder ra action input w).1 ≡ w
  unfolding cron_tick
  tick_quiet q =
      run_wanted_quiet q (look_up std rt has_recorder ra action input input.event w)
        (look_up_quiet std rt has_recorder ra action input ras w input.event q)

  next_quiet :
      (n : ℕ) (p : Bool × W)
      → p.1 ≡ w
      → cron_ticks std rt has_recorder ra action input n w ≡ w
      → (if p.0 then cron_ticks std rt has_recorder ra action input n p.1 else p.1) ≡ w
  next_quiet n (true, w') e ih = ap (cron_ticks std rt has_recorder ra action input n) e ∙ ih
  next_quiet n (false, w') e ih = e

  more_quiet :
      (n : ℕ)
      → IsQuiet std rt has_recorder ra action input ras w
      → cron_ticks std rt has_recorder ra action input n w ≡ w
      → cron_ticks std rt has_recorder ra action input (suc n) w ≡ w
  unfolding cron_ticks
  more_quiet n q ih =
      next_quiet n (cron_tick std rt has_recorder ra action input w) (tick_quiet q) ih

  ticks_quiet :
      IsQuiet std rt has_recorder ra action input ras w
      → (n : ℕ) → cron_ticks std rt has_recorder ra action input n w ≡ w
  ticks_quiet q zero = unfold cron_ticks in refl
  ticks_quiet q (suc n) = more_quiet n q (ticks_quiet q n)

  parsed_quiet :
      (n : ℕ) (parsed : Result ℤ)
      → IsQuiet std rt has_recorder ra action input ras w
      → after_parse std rt has_recorder ra action input n parsed w ≡ w
  parsed_quiet n (err e) q = refl
  parsed_quiet n (ok duration) q = ticks_quiet q n

  -- If reading from the cluster leaves the world as it is, and every listed ResourceAction has
  -- scheduled actions only, or its run on record, or is not concerned, then a cron action never does
  -- anything: after any number of ticks the world is as it was.
  pub run_cron_quiet :
      (n : ℕ)
      → IsQuiet std rt has_recorder ra action input ras w
      → run_cron_until std rt has_recorder ra action input n w ≡ w
  unfolding run_cron_until
  run_cron_quiet n q = parsed_quiet n (std.parse_duration action.schedule) q
