-- ===== src/Executor/Run/Step.antt =====
-- One ResourceAction in a run of the executor, where the cluster keeps what it is told (Execute of
-- internal/engine/executor.go).
use resource_action_operator.Prelude.{
  ℕ, ◌≡◌, refl, sym, ap, ◌∙◌, String, List, map, Bool, ◌&&◌, ◌==◌, Result, ok, err, Check, Error,
  if◌then◌else◌,
}
use resource_action_operator.Api.{ResourceAction, ExecutionRecord}
use resource_action_operator.Std.{Std}
use resource_action_operator.Runtime.{Runtime, continue, ◌>>=◌}
use resource_action_operator.Runtime.Frame.{Keeps}
use resource_action_operator.Matching.{MatchInput}
use resource_action_operator.Executor.Status.{record_run, update_once}

-- A resource, and the list of the resources, once the status of one is updated.
abbrev pub with_status : ResourceAction → ResourceAction → ResourceAction
with_status new ra =
    if ra.name == new.name && ra.namespace == new.namespace
    then record ra { status = new.status }
    else ra

abbrev pub set_status : ResourceAction → List ResourceAction → List ResourceAction
set_status new = map (with_status new)

module _ {W : Type 0} (rt : Runtime W) (stored : W → List ResourceAction) where
  -- What the executor relies on of the Kubernetes API, while nobody else writes a ResourceAction:
  -- Get reads one of the name and namespace that it names, a successful update sets the status and
  -- a failed one nothing, RetryOnConflict succeeds only if the last call of its function does, and
  -- the other operations are not about ResourceActions.
  pub record IsStore : Type 0 where
    pub keeps : Keeps rt stored
    pub get_keeps :
        (name namespace : String) (w : W) → stored (rt.get_action name namespace w).1 ≡ stored w
    pub get_named :
        (name namespace : String) (w : W) (latest : ResourceAction)
        → (rt.get_action name namespace w).0 ≡ ok latest
        → (latest.name ≡ name) × (latest.namespace ≡ namespace)
    pub updated :
        (ra : ResourceAction) (w : W)
        → (rt.update_status ra w).0 ≡ ok tt
        → stored (rt.update_status ra w).1 ≡ set_status ra (stored w)
    pub not_updated :
        (ra : ResourceAction) (w : W) (e : Error)
        → (rt.update_status ra w).0 ≡ err e
        → stored (rt.update_status ra w).1 ≡ stored w
    pub retried :
        (f : W → Check × W) (w : W)
        → ((v : W) (e : Error) → (f v).0 ≡ err e → stored (f v).1 ≡ stored v)
        → (rt.retry_on_conflict f w).0 ≡ ok tt
        → (v : W) × (f v ≡ rt.retry_on_conflict f w) × (stored v ≡ stored w)

module _ {W : Type 0} (std : Std) (rt : Runtime W) (has_recorder : Bool) (input : MatchInput)
    (stored : W → List ResourceAction) (store : IsStore rt stored) (ra : ResourceAction) where
  abbrev update_got : ExecutionRecord → Check → Result ResourceAction → W → Check × W
  update_got exec result (err e) w = (err e, w)
  update_got exec result (ok latest) w =
      let (now, w') = rt.clock w in rt.update_status (record_run std exec result now latest) w'

  update_once-eq-update_got :
      (exec : ExecutionRecord) (result : Check) (w : W)
      → update_once std rt ra exec result w ≡ (
          let (found, w') = rt.get_action ra.name ra.namespace w in update_got exec result found w')
  unfolding update_once
  update_once-eq-update_got exec result w =
      let (found, w') = rt.get_action ra.name ra.namespace w in got exec result found w'
    where
      got :
          (exec : ExecutionRecord) (result : Check) (found : Result ResourceAction) (w : W)
          → continue found
              (λ latest. (λ w. let (t, w') = rt.clock w in (ok t, w')) >>= λ now.
                rt.update_status (record_run std exec result now latest))
              w
            ≡ update_got exec result found w
      got exec result (err e) w = refl
      got exec result (ok latest) w = refl

  -- A status that was written: that of some version of the resource, with the run recorded.
  abbrev pub Written : ExecutionRecord → Check → List ResourceAction → List ResourceAction → Type 0
  Written exec result before after =
      (latest : ResourceAction) × (now : ℕ) × (latest.name ≡ ra.name)
      × (latest.namespace ≡ ra.namespace)
      × (after ≡ set_status (record_run std exec result now latest) before)

  got_failed :
      (exec : ExecutionRecord) (result : Check) (found : Result ResourceAction) (w : W) (e : Error)
      → (update_got exec result found w).0 ≡ err e
      → stored (update_got exec result found w).1 ≡ stored w
  got_failed exec result (err x) w e h = refl
  got_failed exec result (ok latest) w e h =
      let (now, w') = rt.clock w in
      store.not_updated (record_run std exec result now latest) w' e h ∙ store.keeps.clock w

  got-Written :
      (exec : ExecutionRecord) (result : Check) (found : Result ResourceAction) (w : W)
      → ((latest : ResourceAction)
          → found ≡ ok latest
          → (latest.name ≡ ra.name) × (latest.namespace ≡ ra.namespace))
      → (update_got exec result found w).0 ≡ ok tt
      → Written exec result (stored w) (stored (update_got exec result found w).1)
  got-Written exec result (err x) w named h = cc
  got-Written exec result (ok latest) w named h =
      let (now, w') = rt.clock w in
      let (name, namespace) = named latest refl in
      (
        latest,
        now,
        name,
        namespace,
        store.updated (record_run std exec result now latest) w' h
            ∙ ap (set_status (record_run std exec result now latest)) (store.keeps.clock w),
      )

  update_failed :
      (exec : ExecutionRecord) (result : Check) (w : W) (e : Error)
      → (update_once std rt ra exec result w).0 ≡ err e
      → stored (update_once std rt ra exec result w).1 ≡ stored w
  update_failed exec result w e h =
      let same = update_once-eq-update_got exec result w in
      let (found, w') = rt.get_action ra.name ra.namespace w in
      ap (λ p. stored p.1) same
      ∙ got_failed exec result found w' e (sym (ap (λ p. p.0) same) ∙ h)
      ∙ store.get_keeps ra.name ra.namespace w

  update-Written :
      (exec : ExecutionRecord) (result : Check) (w : W)
      → (update_once std rt ra exec result w).0 ≡ ok tt
      → Written exec result (stored w) (stored (update_once std rt ra exec result w).1)
  update-Written exec result w h =
      let same = update_once-eq-update_got exec result w in
      let (found, w') = rt.get_action ra.name ra.namespace w in
      let (latest, now, name, namespace, after) =
        got-Written exec result found w'
          (λ latest e. store.get_named ra.name ra.namespace w latest e)
          (sym (ap (λ p. p.0) same) ∙ h) in
      (
        latest,
        now,
        name,
        namespace,
        ap (λ p. stored p.1) same
            ∙ after
            ∙ ap (set_status (record_run std exec result now latest))
                (store.get_keeps ra.name ra.namespace w),
      )

  pub retried-Written :
      (exec : ExecutionRecord) (result : Check) (w : W)
      → (rt.retry_on_conflict (update_once std rt ra exec result) w).0 ≡ ok tt
      → Written exec result
          (stored w)
          (stored (rt.retry_on_conflict (update_once std rt ra exec result) w).1)
  retried-Written exec result w h =
      let (v, same, before) =
        store.retried (update_once std rt ra exec result) w (update_failed exec result) h in
      let (latest, now, name, namespace, after) =
        update-Written exec result v (ap (λ p. p.0) same ∙ h) in
      (
        latest,
        now,
        name,
        namespace,
        sym (ap (λ p. stored p.1) same)
            ∙ after
            ∙ ap (set_status (record_run std exec result now latest)) before,
      )
