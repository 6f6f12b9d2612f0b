-- ===== src/Cron/Registered.antt =====
-- The registrations of cron actions (EnsureForMatch of internal/engine/cron_engine.go).
use resource_action_operator.Prelude.{
  ℕ, suc, ◌≡◌, refl, sym, ap, subst, ◌∙◌, ◌&&◌, List, [], ◌∷◌, ◌++◌, All, arith, true, false, not,
  ◌==◌, eq_refl, Bool-cases, inl, inr, if◌then◌else◌,
}
use resource_action_operator.Api.{ResourceAction, ActionSpec}
use resource_action_operator.Std.{Std}
use resource_action_operator.Runtime.{Runtime, Task, run_cron}
use resource_action_operator.Matching.{MatchInput, concerns, event_text}
use resource_action_operator.Validation.Spec.{is_scheduled}
use resource_action_operator.Cron.{
  CronKey, same_key, is_registered, cron_key, register, ensure_action, ensure_actions, ensure_all,
}

-- The registrations that an event asks for: the scheduled actions with a schedule, in their order.
abbrev pub wanted_actions :
    MatchInput → ResourceAction → ℕ → List ActionSpec → List (CronKey × Task)
wanted_actions input ra i [] = []
wanted_actions input ra i (action ∷ actions) =
    if is_scheduled action && not (action.schedule == "")
    then (cron_key ra input i, run_cron ra action input) ∷ wanted_actions input ra (suc i) actions
    else wanted_actions input ra (suc i) actions

abbrev pub wanted : Std → MatchInput → List ResourceAction → List (CronKey × Task)
wanted std input [] = []
wanted std input (ra ∷ ras) =
    if concerns std ra input
    then wanted_actions input ra 0 ra.spec.actions ++ wanted std input ras
    else wanted std input ras

module _ {W : Type 0} (rt : Runtime W) where
  -- The reference: start the task of each key that is not registered yet.
  unfoldable pub start_new : List (CronKey × Task) → List CronKey × W → List CronKey × W
  start_new [] s = s
  start_new ((key, task) ∷ entries) (jobs, w) =
      if is_registered jobs key
      then start_new entries (jobs, w)
      else start_new entries (key ∷ jobs, rt.start task w)

  start_new-append :
      (xs ys : List (CronKey × Task)) (s : List CronKey × W)
      → start_new (xs ++ ys) s ≡ start_new ys (start_new xs s)
  unfolding start_new
  start_new-append [] ys s = refl
  start_new-append ((key, task) ∷ xs) ys (jobs, w) = elim (Bool-cases (is_registered jobs key)) [
    | inl old ↦ rw old (start_new-append xs ys (jobs, w))
    | inr new ↦ rw new (start_new-append xs ys (key ∷ jobs, rt.start task w))
  ]

  -- What is registered stays registered.
  start_new_keeps :
      (es : List (CronKey × Task)) (s : List CronKey × W) (key : CronKey)
      → is_registered s.0 key ≡ true
      → is_registered (start_new es s).0 key ≡ true
  unfolding start_new
  start_new_keeps [] s key h = h
  start_new_keeps ((k, task) ∷ es) (jobs, w) key h = elim (Bool-cases (is_registered jobs k)) [
    | inl old ↦ rw old (start_new_keeps es (jobs, w) key h)
    | inr new ↦
        rw new (
          start_new_keeps es (k ∷ jobs, rt.start task w) key (unfold is_registered in ground arith))
  ]

  -- Nothing is started where every key is registered.
  start_new_settled :
      (es : List (CronKey × Task)) (s : List CronKey × W)
      → All (λ e. is_registered s.0 e.0 ≡ true) es
      → start_new es s ≡ s
  unfolding start_new
  start_new_settled [] s h = refl
  start_new_settled ((key, task) ∷ es) (jobs, w) h = rw (h.0) (start_new_settled es (jobs, w) h.1)

same_key_refl : (key : CronKey) → same_key key key ≡ true
unfolding same_key event_text
same_key_refl key =
    ground
      (arith, eq_refl key.resource_action, eq_refl key.resource_uid, eq_refl (event_text key.event))

registered_head : (key : CronKey) (jobs : List CronKey) → is_registered (key ∷ jobs) key ≡ true
unfolding is_registered
registered_head key jobs = rw (same_key_refl key) refl

abbrev pub AllRegistered {ℓ} : {W : Type ℓ} → List (CronKey × Task) → List CronKey × W → Type 0
AllRegistered es s = All (λ e. is_registered s.0 e.0 ≡ true) es

module _ {W : Type 0} (rt : Runtime W) where
  start_new_old :
      (key : CronKey) (task : Task) (es : List (CronKey × Task)) (jobs : List CronKey) (w : W)
      → is_registered jobs key ≡ true
      → start_new rt ((key, task) ∷ es) (jobs, w) ≡ start_new rt es (jobs, w)
  unfolding start_new
  start_new_old key task es jobs w old = rw old

  start_new_fresh :
      (key : CronKey) (task : Task) (es : List (CronKey × Task)) (jobs : List CronKey) (w : W)
      → is_registered jobs key ≡ false
      → start_new rt ((key, task) ∷ es) (jobs, w) ≡ start_new rt es (key ∷ jobs, rt.start task w)
  unfolding start_new
  start_new_fresh key task es jobs w new = rw new

  start_new_registers :
      (es : List (CronKey × Task)) (s : List CronKey × W) → AllRegistered es (start_new rt es s)
  start_new_registers [] s = tt
  start_new_registers ((key, task) ∷ es) (jobs, w) = elim (Bool-cases (is_registered jobs key)) [
    | inl old ↦
        subst (AllRegistered ((key, task) ∷ es)) (sym (start_new_old key task es jobs w old))
          (start_new_keeps rt es (jobs, w) key old, start_new_registers es (jobs, w))
    | inr new ↦
        subst (AllRegistered ((key, task) ∷ es)) (sym (start_new_fresh key task es jobs w new)) (
          start_new_keeps rt es (key ∷ jobs, rt.start task w) key (registered_head key jobs),
          start_new_registers es (key ∷ jobs, rt.start task w),
        )
  ]

-- No key is registered twice.
abbrev pub DistinctKeys : List CronKey → Type 0
DistinctKeys [] = Unit
DistinctKeys (key ∷ jobs) = (is_registered jobs key ≡ false) × DistinctKeys jobs

module _ {W : Type 0} (std : Std) (rt : Runtime W) (input : MatchInput) where
  start_new-DistinctKeys :
      (es : List (CronKey × Task)) (s : List CronKey × W)
      → DistinctKeys s.0
      → DistinctKeys (start_new rt es s).0
  unfolding start_new
  start_new-DistinctKeys [] s h = h
  start_new-DistinctKeys ((key, task) ∷ es) (jobs, w) h =
      elim (Bool-cases (is_registered jobs key)) [
        | inl old ↦ rw old (start_new-DistinctKeys es (jobs, w) h)
        | inr new ↦ rw new (start_new-DistinctKeys es (key ∷ jobs, rt.start task w) (new, h))
      ]

  ensure_actions-eq-start_new :
      (ra : ResourceAction) (i : ℕ) (actions : List ActionSpec) (s : List CronKey × W)
      → ensure_actions std rt input ra i actions s
        ≡ start_new rt (wanted_actions input ra i actions) s
  unfolding ensure_actions ensure_action register start_new
  ensure_actions-eq-start_new ra i [] s = refl
  ensure_actions-eq-start_new ra i (action ∷ actions) (jobs, w) =
      let ih = ensure_actions-eq-start_new ra (suc i) actions in
      elim (Bool-cases (is_scheduled action)) [
        | inr once ↦ rw once (ih (jobs, w))
        | inl scheduled ↦ elim (Bool-cases (action.schedule == "")) [
          | inl none' ↦ rw (scheduled, none') (ih (jobs, w))
          | inr some' ↦ elim (Bool-cases (is_registered jobs (cron_key ra input i))) [
            | inl old ↦ rw (scheduled, some', old) (ih (jobs, w))
            | inr new ↦
                rw (scheduled, some', new)
                  (ih (cron_key ra input i ∷ jobs, rt.start (run_cron ra action input) w))
          ]
        ]
      ]

  -- The loops register exactly what the event asks for: for each ResourceAction that it concerns,
  -- the scheduled actions that have a schedule, in their order, each unless its key is there.
  pub ensure_all-eq-start_new :
      (ras : List ResourceAction) (s : List CronKey × W)
      → ensure_all std rt input ras s ≡ start_new rt (wanted std input ras) s
  unfolding ensure_all
  ensure_all-eq-start_new [] s = unfold start_new in refl
  ensure_all-eq-start_new (ra ∷ ras) s = elim (Bool-cases (concerns std ra input)) [
    | inr other ↦ rw other (ensure_all-eq-start_new ras s)
    | inl yes' ↦ rw yes' (
        ensure_all-eq-start_new ras (ensure_actions std rt input ra 0 ra.spec.actions s)
        ∙ ap (start_new rt (wanted std input ras))
            (ensure_actions-eq-start_new ra 0 ra.spec.actions s)
        ∙ sym (
            start_new-append rt (wanted_actions input ra 0 ra.spec.actions) (wanted std input ras)
              s))
  ]

  -- After an event every cron action that it asks for is registered, and the same event again
  -- changes nothing: no second goroutine is started for a registered action.
  pub ensure_all_once :
      (ras : List ResourceAction) (s : List CronKey × W)
      → let s' = ensure_all std rt input ras s in
        AllRegistered (wanted std input ras) s' × (ensure_all std rt input ras s' ≡ s')
  ensure_all_once ras s =
      let settled = start_new_registers rt (wanted std input ras) s in
      subst (λ s'. AllRegistered (wanted std input ras) s' × (ensure_all std rt input ras s' ≡ s'))
        (sym (ensure_all-eq-start_new ras s))
        (
          settled,
          ensure_all-eq-start_new ras _ ∙ start_new_settled rt (wanted std input ras) _ settled,
        )

  -- The keys that are registered stay distinct.
  pub ensure_all-DistinctKeys :
      (ras : List ResourceAction) (s : List CronKey × W)
      → DistinctKeys s.0
      → DistinctKeys (ensure_all std rt input ras s).0
  ensure_all-DistinctKeys ras s h =
      rw (ensure_all-eq-start_new ras s) (start_new-DistinctKeys (wanted std input ras) s h)
