-- ===== src/Engine/Watching.antt =====
-- What EnsureWatching (internal/engine/engine.go) keeps and brings about.
use resource_action_operator.Prelude.{
  ◌≡◌, refl, sym, subst, ◌∙◌, inl, inr, List, [], ◌∷◌, arith, true, false, not, eq_refl, Bool-cases,
  is_empty, Result, ok, err, Check,
}
use resource_action_operator.Std.{Std}
use resource_action_operator.Kube.{GroupVersionResource}
use resource_action_operator.Runtime.{Runtime}
use resource_action_operator.Matching.{GroupVersionKind}
use resource_action_operator.Engine.{
  Engine, same_gvr, is_watched, rest_mapping, start_informer, after_handler, after_mapping,
  ensure_watching,
}

-- No resource has two informers.
abbrev pub DistinctGvr : List GroupVersionResource → Type 0
DistinctGvr [] = Unit
DistinctGvr (gvr ∷ informers) = (is_watched informers gvr ≡ false) × DistinctGvr informers

-- The engine is started exactly if it has an informer, and its cron engine with it.
pub record IsWellFormed (e : Engine) : Type 0 where
  pub distinct : DistinctGvr e.informers
  pub started : e.started ≡ not (is_empty e.informers)
  pub cron : e.cron_started ≡ e.started

same_gvr_refl : (gvr : GroupVersionResource) → same_gvr gvr gvr ≡ true
unfolding same_gvr
same_gvr_refl gvr = ground (arith, eq_refl gvr.group, eq_refl gvr.version, eq_refl gvr.resource)

watched_head :
    (gvr : GroupVersionResource) (informers : List GroupVersionResource)
    → is_watched (gvr ∷ informers) gvr ≡ true
unfolding is_watched
watched_head gvr informers = rw (same_gvr_refl gvr) refl

watched_tail :
    (gvr g : GroupVersionResource) (informers : List GroupVersionResource)
    → is_watched informers g ≡ true
    → is_watched (gvr ∷ informers) g ≡ true
unfolding is_watched
watched_tail gvr g informers h = ground arith

module _ {W : Type 0} (std : Std) (rt : Runtime W) where
  start_informer-IsWellFormed :
      (gvr : GroupVersionResource) (e : Engine) (w : W)
      → is_watched e.informers gvr ≡ false
      → IsWellFormed e
      → IsWellFormed (start_informer std rt gvr (record e { informers = gvr ∷ e.informers }, w)).0
  unfolding start_informer
  start_informer-IsWellFormed gvr e w new wf = elim (Bool-cases (e.started)) [
    | inl running ↦
        rw running
          (record { distinct = (new, wf.distinct); started = refl; cron = wf.cron ∙ running })
    | inr idle ↦ rw idle (record { distinct = (new, wf.distinct); started = refl; cron = refl })
  ]

  after_handler-IsWellFormed :
      (gvr : GroupVersionResource) (e : Engine) (added : Check) (w : W)
      → is_watched e.informers gvr ≡ false
      → IsWellFormed e
      → IsWellFormed (after_handler std rt gvr e (added, w)).1.0
  unfolding after_handler
  after_handler-IsWellFormed gvr e (err x) w new wf = wf
  after_handler-IsWellFormed gvr e (ok _) w new wf = start_informer-IsWellFormed gvr e w new wf

  pub after_mapping-IsWellFormed :
      (gvk : GroupVersionKind) (e : Engine) (mapped : Result GroupVersionResource) (w : W)
      → IsWellFormed e
      → IsWellFormed (after_mapping std rt gvk e (mapped, w)).1.0
  unfolding after_mapping
  after_mapping-IsWellFormed gvk e (err x) w wf = wf
  after_mapping-IsWellFormed gvk e (ok gvr) w wf = elim (Bool-cases (is_watched e.informers gvr)) [
    | inl old ↦ rw old wf
    | inr new ↦ rw new (
        let (added, w') = rt.add_event_handler gvr gvk w in
        after_handler-IsWellFormed gvr e added w' new wf)
  ]

  -- Ensuring a watch keeps the engine well formed: one informer for each resource, and the engine and
  -- its cron engine started exactly if there is an informer.
  pub ensure_watching-IsWellFormed :
      (gvk : GroupVersionKind) (e : Engine) (w : W)
      → IsWellFormed e
      → IsWellFormed (ensure_watching std rt gvk (e, w)).1.0
  unfolding ensure_watching
  ensure_watching-IsWellFormed gvk e w wf =
      let (mapped, w') = rest_mapping std rt gvk w in after_mapping-IsWellFormed gvk e mapped w' wf

  -- The outcome of ensuring a watch, given what discovery says: the engine as it was and an error, or
  -- an engine that watches one resource more.
  abbrev pub Ensures : Result GroupVersionResource → Engine → Check × (Engine × W) → Type 0
  Ensures mapped e (err x, (e', w)) = e' ≡ e
  Ensures mapped e (ok _, (e', w)) =
      ((gvr : GroupVersionResource) × (mapped ≡ ok gvr) × (is_watched e'.informers gvr ≡ true))
      × ((gvr : GroupVersionResource)
          → is_watched e.informers gvr ≡ true
          → is_watched e'.informers gvr ≡ true)

  informers_kept :
      (gvr : GroupVersionResource) (e : Engine) (w : W)
      → (start_informer std rt gvr (e, w)).0.informers ≡ e.informers
  unfolding start_informer
  informers_kept gvr e w = ground arith

  after_handler-Ensures :
      (gvr : GroupVersionResource) (e : Engine) (added : Check) (w : W)
      → Ensures (ok gvr) e (after_handler std rt gvr e (added, w))
  unfolding after_handler
  after_handler-Ensures gvr e (err x) w = refl
  after_handler-Ensures gvr e (ok _) w =
      let kept = sym (informers_kept gvr (record e { informers = gvr ∷ e.informers }) w) in
      (
        (gvr, refl, subst (λ l. is_watched l gvr ≡ true) kept (watched_head gvr e.informers)),
        λ g h. subst (λ l. is_watched l g ≡ true) kept (watched_tail gvr g e.informers h),
      )

  pub after_mapping-Ensures :
      (gvk : GroupVersionKind) (e : Engine) (mapped : Result GroupVersionResource) (w : W)
      → Ensures mapped e (after_mapping std rt gvk e (mapped, w))
  unfolding after_mapping
  after_mapping-Ensures gvk e (err x) w = refl
  after_mapping-Ensures gvk e (ok gvr) w = elim (Bool-cases (is_watched e.informers gvr)) [
    | inl old ↦ rw old ((gvr, refl, old), λ g h. h)
    | inr new ↦
        rw new
          (let (added, w') = rt.add_event_handler gvr gvk w in after_handler-Ensures gvr e added w')
  ]
