-- ===== src/Writes/Conditioned.antt =====
-- The condition that is written under RetryOnConflict (setSpecCondition of
-- internal/controller/resourceaction_controller.go).
use resource_action_operator.Prelude.{
  some, if◌then◌else◌, ℕ, ◌≡◌, refl, ap, ◌∙◌, subst, String, ◌⊎◌, inl, inr, List, [], ◌∷◌,
  Bool-cases, ◌==◌, true, Result, ok, err, Check, Error,
}
use resource_action_operator.Api.{ResourceAction, Condition}
use resource_action_operator.Std.{Std}
use resource_action_operator.Runtime.{Runtime}
use resource_action_operator.Conditions.{set_spec_condition, find_condition}
use resource_action_operator.Conditions.Upsert.{put_condition, find-set_spec_condition}
use resource_action_operator.Controller.{
  lend_time, captured_condition, ignore_not_found, update_latest, set_spec_condition_once,
}
use resource_action_operator.Writes.{Commits, IsServer}

-- A condition as it was given, but for its generation and its time.
pub record IsGiven (given cond : Condition) : Type 0 where
  pub type : cond.type ≡ given.type
  pub status : cond.status ≡ given.status
  pub reason : cond.reason ≡ given.reason
  pub message : cond.message ≡ given.message

-- A condition is put into a resource: it is the one of its type, at the generation of the resource,
-- and every other type has the condition that it had; nothing else of the status changes.
abbrev pub PutInto : Condition → ResourceAction → ResourceAction → Type 0
PutInto given latest new =
    (new.status.executions ≡ latest.status.executions)
    × (new.status.last_error ≡ latest.status.last_error)
    × ((cond : Condition) × IsGiven given cond
        × (cond.observed_generation ≡ latest.generation)
        × ((type : String)
            → find_condition type new.status.conditions ≡ (
                if given.type == type
                then some cond
                else find_condition type latest.status.conditions)))

set_spec_condition-PutInto :
    (given cond : Condition) (now : ℕ) (latest : ResourceAction)
    → IsGiven given cond
    → PutInto given latest (set_spec_condition now cond latest)
set_spec_condition-PutInto given cond now latest h = (
  (unfold set_spec_condition in refl),
  (unfold set_spec_condition in refl),
  (
    put_condition now latest cond,
    record { type = h.type; status = h.status; reason = h.reason; message = h.message },
    refl,
    λ type.
        find-set_spec_condition now latest cond type
        ∙ ap
            (λ t.
              if t == type
              then some (put_condition now latest cond)
              else find_condition type latest.status.conditions)
            h.type,
  ),
)

lend_time-IsGiven :
    (given cond : Condition) (existing : List Condition)
    → IsGiven given cond
    → IsGiven given (lend_time cond existing)
unfolding lend_time
lend_time-IsGiven given cond [] h = h
lend_time-IsGiven given cond (e ∷ existing) h = elim (Bool-cases (e.type == cond.type)) [
  | inl same ↦
      rw same (record { type = h.type; status = h.status; reason = h.reason; message = h.message })
  | inr other ↦ rw other (lend_time-IsGiven given cond existing h)
]

captured_condition-IsGiven :
    (given cond : Condition) (now : ℕ) (latest : ResourceAction)
    → IsGiven given cond
    → IsGiven given (captured_condition now cond latest)
unfolding captured_condition
captured_condition-IsGiven given cond now latest h =
    lend_time-IsGiven given _ latest.status.conditions
      (record { type = h.type; status = h.status; reason = h.reason; message = h.message })

module _ {W : Type 0} (std : Std) (rt : Runtime W) where
  update_latest-IsGiven :
      (given cond : Condition) (found : Result ResourceAction) (w : W)
      → IsGiven given cond
      → IsGiven given (update_latest std rt cond (found, w)).1.0
  update_latest-IsGiven given cond (err e) w h = h
  update_latest-IsGiven given cond (ok latest) w h =
      captured_condition-IsGiven given cond (rt.clock w).0 latest h

  once-IsGiven :
      (given : Condition) (name namespace : String) (s : Condition × W)
      → IsGiven given s.0
      → IsGiven given (set_spec_condition_once std rt name namespace s).1.0
  unfolding set_spec_condition_once
  once-IsGiven given name namespace (cond, w) h =
      let (found, w') = rt.get_action name namespace w in
      update_latest-IsGiven given cond found w' h

  is_missing : (e : Error) → ignore_not_found std rt e ≡ ok tt → std.is_not_found e ≡ true
  is_missing e h = elim (Bool-cases (std.is_not_found e)) [
    | inl missing ↦ missing
    | inr other ↦ cc (rw other at h)
  ]

  module _ (stored : W → List ResourceAction) (Was : W → ResourceAction → Type 0)
      (server : IsServer rt stored Was) where
    -- The last call is an update, in a world `u`, of the version that is stored there, with the
    -- condition put into it; or it is a Get that does not find the resource.
    abbrev pub IsPut : String → String → Condition → Check × (Condition × W) → Type 0
    IsPut name namespace given p =
        ((u : W) × (latest : ResourceAction) × (new : ResourceAction) × (rt.update_status new u
            ≡ (p.0, p.1.1))
          × (latest.name ≡ name)
          × (latest.namespace ≡ namespace)
          × Commits (stored u) latest new (stored p.1.1)
          × PutInto given latest new)
        ⊎ ((v : W) × (e : Error) × (rt.get_action name namespace v ≡ (err e, p.1.1))
            × (std.is_not_found e ≡ true))

    put :
        (given cond : Condition) (name namespace : String) (w w' : W)
        (found : Result ResourceAction)
        → IsGiven given cond
        → rt.get_action name namespace w ≡ (found, w')
        → ((latest : ResourceAction)
            → found ≡ ok latest
            → Was w' latest × ((latest.name ≡ name) × (latest.namespace ≡ namespace)))
        → (update_latest std rt cond (found, w')).0 ≡ ok tt
        → IsPut name namespace given (update_latest std rt cond (found, w'))
    unfolding set_spec_condition
    put given cond name namespace w w' (err e) same got read h = inr (w, e, got, is_missing e h)
    put given cond name namespace w w' (ok latest) same got read h =
        let (was, named) = read latest refl in
        let (now, u) = rt.clock w' in
        inl (
          u,
          latest,
          set_spec_condition now cond latest,
          refl,
          named.0,
          named.1,
          server.accepted u latest (set_spec_condition now cond latest) (server.later w' latest was)
              refl refl refl h,
          set_spec_condition-PutInto given cond now latest same,
        )

    once-IsPut :
        (given : Condition) (name namespace : String) (s : Condition × W)
        → IsGiven given s.0
        → (set_spec_condition_once std rt name namespace s).0 ≡ ok tt
        → IsPut name namespace given (set_spec_condition_once std rt name namespace s)
    unfolding set_spec_condition_once
    once-IsPut given name namespace (cond, w) same h =
        let (found, w') = rt.get_action name namespace w in
        put given cond name namespace w w' found same refl (server.read name namespace w) h

    -- Whatever others write between the calls, a condition that is written under RetryOnConflict comes
    -- from an update of the version that is stored when it is made. Of the status of that version only
    -- the condition of its type changes, to the status, the reason and the message that were given, at
    -- the generation of that version, whatever the calls before it assigned; or, without an update, the
    -- last call does not find the resource.
    pub retry_condition-IsPut :
        (given : Condition) (name namespace : String) (w : W)
        → (rt.retry_condition (set_spec_condition_once std rt name namespace) (given, w)).0 ≡ ok tt
        → IsPut name namespace given
            (rt.retry_condition (set_spec_condition_once std rt name namespace) (given, w))
    retry_condition-IsPut given name namespace w h =
        let f = set_spec_condition_once std rt name namespace in
        let (s, same, last) =
          server.retried_condition f (IsGiven given) (given, w)
            (record { type = refl; status = refl; reason = refl; message = refl })
            (once-IsGiven given name namespace) h in
        subst (IsPut name namespace given) last
          (once-IsPut given name namespace s same (ap (λ p. p.0) last ∙ h))
