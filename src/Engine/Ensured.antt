-- ===== src/Engine/Ensured.antt =====
-- What EnsureWatching (internal/engine/engine.go) brings about: the discovery, the handlers, the start
-- of the informer and the errors.
use resource_action_operator.Prelude.{
  ◌≡◌, refl, sym, ap, subst, ◌⊎◌, inl, inr, Option, none, some, List, [], ◌∷◌, ◌++◌, All, true,
  false, ◌==◌, eq_iff, Bool-cases, Result, ok, err, Check, Error, if◌then◌else◌,
}
use resource_action_operator.Std.{Std}
use resource_action_operator.Kube.{GroupVersionResource, ApiResource}
use resource_action_operator.Runtime.{Runtime, run_informer, start_factory}
use resource_action_operator.Matching.{GroupVersionKind}
use resource_action_operator.Engine.{
  Engine, is_watched, find_kind, found_or, map_resources, rest_mapping, start_informer,
  after_handler, after_mapping, ensure_watching,
}

module _ (gvk : GroupVersionKind) where
  abbrev pub IsOther : ApiResource → Type 0
  IsOther r = (r.kind == gvk.kind) ≡ false

  -- The resource of the first entry of the kind, in the group and the version of the kind.
  abbrev pub IsMapped : List ApiResource → GroupVersionResource → Type 0
  IsMapped resources gvr =
      (before : List ApiResource) × (r : ApiResource) × (rest : List ApiResource) × (resources
        ≡ before ++ r ∷ rest)
      × All IsOther before
      × (r.kind ≡ gvk.kind)
      × (gvr ≡ record { group = gvk.group; version = gvk.version; resource = r.name })

  abbrev Finds : List ApiResource → Option GroupVersionResource → Type 0
  Finds resources none = All IsOther resources
  Finds resources (some gvr) = IsMapped resources gvr

  later-Finds :
      (r : ApiResource) (resources : List ApiResource) (o : Option GroupVersionResource)
      → IsOther r
      → Finds resources o
      → Finds (r ∷ resources) o
  later-Finds r resources none other h = (other, h)
  later-Finds r resources (some gvr) other (before, x, rest, split, others, kind, same) =
      (r ∷ before, x, rest, ap (λ l. r ∷ l) split, (other, others), kind, same)

  find_kind-Finds : (resources : List ApiResource) → Finds resources (find_kind gvk resources)
  unfolding find_kind
  find_kind-Finds [] = tt
  find_kind-Finds (r ∷ resources) = elim (Bool-cases (r.kind == gvk.kind)) [
    | inl own ↦ rw own ([], r, resources, refl, tt, (eq_iff r.kind gvk.kind).0 own, refl)
    | inr other ↦
        rw other
          (later-Finds r resources (find_kind gvk resources) other (find_kind-Finds resources))
  ]

  module _ {W : Type 0} (std : Std) (rt : Runtime W) (e : Engine) (w : W) where
    -- Discovery lists the resources of the group and version.
    abbrev pub Lists : Result (List ApiResource) → W → Type 0
    Lists listed w1 = rt.server_resources (std.group_version gvk.group gvk.version) w ≡ (listed, w1)

    -- There is an informer of the resource already, and nothing is done.
    abbrev pub IsOld : GroupVersionResource → W → Engine → W → Type 0
    IsOld gvr w1 e' w' = (is_watched e.informers gvr ≡ true) × (e' ≡ e) × (w' ≡ w1)

    -- The informer of the resource gets its handlers, is remembered, and is started: the first one by
    -- the start of the factory, which starts the cron engine too, a later one by itself.
    abbrev pub IsNew : GroupVersionResource → W → Engine → W → Type 0
    IsNew gvr w1 e' w' =
        (w2 : W) × (is_watched e.informers gvr ≡ false)
        × (rt.add_event_handler gvr gvk w1 ≡ (ok tt, w2))
        × (e'.informers ≡ gvr ∷ e.informers)
        × (e'.started ≡ true)
        × (e'.cron_started ≡ (if e.started then e.cron_started else true))
        × (w' ≡ rt.start (if e.started then run_informer gvr else start_factory) w2)

    -- Why there is no watch: discovery fails, has no resource of the kind, or the handlers cannot be
    -- added.
    abbrev pub IsFailed : W → Type 0
    IsFailed w' =
        ((x : Error) × Lists (err x) w')
        ⊎ (((resources : List ApiResource) × Lists (ok resources) w' × All IsOther resources)
            ⊎ ((resources : List ApiResource) × (gvr : GroupVersionResource) × (w1 : W)
                × (x : Error) × Lists (ok resources) w1
                × IsMapped resources gvr
                × (is_watched e.informers gvr ≡ false)
                × (rt.add_event_handler gvr gvk w1 ≡ (err x, w'))))

    abbrev pub Ensures : Check × (Engine × W) → Type 0
    Ensures (ok _, (e', w')) =
        (resources : List ApiResource) × (gvr : GroupVersionResource) × (w1 : W) × Lists
          (ok resources) w1
        × IsMapped resources gvr
        × (IsOld gvr w1 e' w' ⊎ IsNew gvr w1 e' w')
    Ensures (err x, (e', w')) = (e' ≡ e) × IsFailed w'

    start_informer-IsNew :
        (gvr : GroupVersionResource) (w1 w2 : W)
        → is_watched e.informers gvr ≡ false
        → rt.add_event_handler gvr gvk w1 ≡ (ok tt, w2)
        → let p = start_informer std rt gvr (record e { informers = gvr ∷ e.informers }, w2) in
          IsNew gvr w1 p.0 p.1
    unfolding start_informer
    start_informer-IsNew gvr w1 w2 new added = elim (Bool-cases e.started) [
      | inl running ↦ rw running (w2, new, added, refl, refl, refl, refl)
      | inr idle ↦ rw idle (w2, new, added, refl, refl, refl, refl)
    ]

    after_handler-Ensures :
        (resources : List ApiResource) (gvr : GroupVersionResource) (w1 : W) (added : Check)
        (w2 : W)
        → Lists (ok resources) w1
        → IsMapped resources gvr
        → is_watched e.informers gvr ≡ false
        → rt.add_event_handler gvr gvk w1 ≡ (added, w2)
        → Ensures (after_handler std rt gvr e (added, w2))
    unfolding after_handler
    after_handler-Ensures resources gvr w1 (err x) w2 listed mapped new h =
        (refl, inr (inr (resources, gvr, w1, x, listed, mapped, new, h)))
    after_handler-Ensures resources gvr w1 (ok _) w2 listed mapped new h =
        (resources, gvr, w1, listed, mapped, inr (start_informer-IsNew gvr w1 w2 new h))

    as_new :
        (gvr : GroupVersionResource) (w1 : W)
        → is_watched e.informers gvr ≡ false
        → after_mapping std rt gvk e (ok gvr, w1)
          ≡ after_handler std rt gvr e (rt.add_event_handler gvr gvk w1)
    unfolding after_mapping
    as_new gvr w1 h = rw h refl

    as_old :
        (gvr : GroupVersionResource) (w1 : W)
        → is_watched e.informers gvr ≡ true
        → after_mapping std rt gvk e (ok gvr, w1) ≡ (ok tt, (e, w1))
    unfolding after_mapping
    as_old gvr w1 h = rw h refl

    found-Ensures :
        (resources : List ApiResource) (w1 : W) (o : Option GroupVersionResource)
        → Lists (ok resources) w1
        → Finds resources o
        → Ensures (
            after_mapping std rt gvk e
              (found_or gvk (std.group_version gvk.group gvk.version) o, w1))
    found-Ensures resources w1 none listed none_of =
        unfold after_mapping in (refl, inr (inl (resources, listed, none_of)))
    found-Ensures resources w1 (some gvr) listed mapped =
        elim (Bool-cases (is_watched e.informers gvr)) [
          | inl old ↦
              subst Ensures (sym (as_old gvr w1 old))
                (resources, gvr, w1, listed, mapped, inl (old, refl, refl))
          | inr new ↦
              let (added, w2) = rt.add_event_handler gvr gvk w1 in
              subst Ensures (sym (as_new gvr w1 new))
                (after_handler-Ensures resources gvr w1 added w2 listed mapped new refl)
        ]

    mapped-Ensures :
        (listed : Result (List ApiResource)) (w1 : W)
        → Lists listed w1
        → Ensures (
            after_mapping std rt gvk e
              (map_resources gvk (std.group_version gvk.group gvk.version) listed, w1))
    mapped-Ensures (err x) w1 h = unfold after_mapping in (refl, inl (x, h))
    mapped-Ensures (ok resources) w1 h =
        found-Ensures resources w1 (find_kind gvk resources) h (find_kind-Finds resources)

    -- Ensuring a watch of a kind gives no error only with a resource of that kind, the first one
    -- that discovery lists in its group and version: there is an informer of it already and nothing is
    -- done, or its informer gets the handlers for the kind and is started, the first informer by the
    -- start of the factory and the cron engine. With an error the engine is as it was: discovery
    -- failed, or has no resource of the kind, or the handlers could not be added.
    pub ensure_watching-Ensures : Ensures (ensure_watching std rt gvk (e, w))
    unfolding ensure_watching rest_mapping
    ensure_watching-Ensures =
        let (listed, w1) = rt.server_resources (std.group_version gvk.group gvk.version) w in
        mapped-Ensures listed w1 refl
