-- ===== src/System/Safe.antt =====
-- What holds of the engine and of the cron engine however the goroutines interleave.
use resource_action_operator.Prelude.{
  ℕ, ◌≡◌, sym, subst, inl, inr, arith, List, true, Bool-cases, Result, ok, err, Check,
}
use resource_action_operator.Api.{ResourceAction, ActionSpec}
use resource_action_operator.Std.{Std}
use resource_action_operator.Kube.{GroupVersionResource}
use resource_action_operator.Runtime.{Runtime}
use resource_action_operator.Matching.{MatchInput}
use resource_action_operator.Cron.{CronKey, is_registered, cron_key, register}
use resource_action_operator.Cron.Registered.{DistinctKeys}
use resource_action_operator.Engine.{Engine, is_watched}
use resource_action_operator.Engine.Watching.{
  IsWellFormed, Ensures, after_mapping-IsWellFormed, after_mapping-Ensures,
}
use resource_action_operator.System.{
  System, Step, watch, registration, elsewhere, Reach, here, next,
}

-- One informer for each resource, an engine and a cron engine that are started with the first one,
-- and one goroutine for each cron action.
pub record IsSafe {W : Type 0} (s : System W) : Type 0 where
  pub engine : IsWellFormed s.engine
  pub jobs : DistinctKeys s.jobs

-- What is watched and what is registered stays so.
abbrev pub Keeps : {W : Type 0} → System W → System W → Type 0
Keeps s t =
    ((gvr : GroupVersionResource)
      → is_watched s.engine.informers gvr ≡ true
      → is_watched t.engine.informers gvr ≡ true)
    × ((key : CronKey) → is_registered s.jobs key ≡ true → is_registered t.jobs key ≡ true)

module _ {W : Type 0} (std : Std) (rt : Runtime W) where
  Ensures-watched :
      (mapped : Result GroupVersionResource) (e : Engine) (p : Check × (Engine × W))
      → Ensures std rt mapped e p
      → (gvr : GroupVersionResource) → is_watched e.informers gvr ≡ true
      → is_watched p.1.0.informers gvr ≡ true
  Ensures-watched mapped e (err x, (e', w)) same gvr h =
      subst (λ d. is_watched d.informers gvr ≡ true) (sym same) h
  Ensures-watched mapped e (ok _, (e', w)) more gvr h = more.1 gvr h

  register-DistinctKeys :
      (input : MatchInput) (ra : ResourceAction) (i : ℕ) (action : ActionSpec) (jobs : List CronKey)
      (w : W)
      → DistinctKeys jobs
      → DistinctKeys (register std rt input ra i action (jobs, w)).0
  unfolding register
  register-DistinctKeys input ra i action jobs w h =
      elim (Bool-cases (is_registered jobs (cron_key ra input i))) [
        | inl old ↦ rw old h
        | inr new ↦ rw new (new, h)
      ]

  register_keeps :
      (input : MatchInput) (ra : ResourceAction) (i : ℕ) (action : ActionSpec) (jobs : List CronKey)
      (w : W) (key : CronKey)
      → is_registered jobs key ≡ true
      → is_registered (register std rt input ra i action (jobs, w)).0 key ≡ true
  unfolding register
  register_keeps input ra i action jobs w key h =
      elim (Bool-cases (is_registered jobs (cron_key ra input i))) [
        | inl old ↦ rw old h
        | inr new ↦ rw new (unfold is_registered in ground arith)
      ]

  Step-IsSafe : {s t : System W} → Step std rt s t → IsSafe s → IsSafe t × Keeps s t
  Step-IsSafe {s} (watch gvk mapped) safe = (
    record {
      engine = after_mapping-IsWellFormed std rt gvk s.engine mapped s.world safe.engine;
      jobs = safe.jobs;
    },
    (
      Ensures-watched mapped s.engine _ (after_mapping-Ensures std rt gvk s.engine mapped s.world),
      λ key h. h,
    ),
  )
  Step-IsSafe {s} (registration input ra i action) safe = (
    record {
      engine = safe.engine;
      jobs = register-DistinctKeys input ra i action s.jobs s.world safe.jobs;
    },
    (λ gvr h. h, register_keeps input ra i action s.jobs s.world),
  )
  Step-IsSafe (elsewhere w) safe =
      (record { engine = safe.engine; jobs = safe.jobs }, (λ gvr h. h, λ key h. h))

  -- From a safe start, in whatever order the critical sections of the goroutines and the changes of
  -- the world follow each other, every system that is reached is safe: no resource has two informers,
  -- the engine and its cron engine are started exactly if there is an informer, and no key of a cron
  -- action is there twice. What was watched or registered still is.
  pub Reach-IsSafe : {s t : System W} → IsSafe s → Reach std rt s t → IsSafe t × Keeps s t
  Reach-IsSafe safe here = (safe, (λ gvr h. h, λ key h. h))
  Reach-IsSafe safe (next reach step) =
      let (safe', (watched, registered)) = Reach-IsSafe safe reach in
      let (safe'', (watched', registered')) = Step-IsSafe step safe' in
      (safe'', (λ gvr h. watched' gvr (watched gvr h), λ key h. registered' key (registered key h)))
