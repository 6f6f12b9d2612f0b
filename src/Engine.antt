-- ===== src/Engine.antt =====
-- The engine (internal/engine/engine.go): which resources are watched, and what an event does.
pub mod Ensured
pub mod Watching
pub mod Events
use resource_action_operator.Prelude.{
  ℕ, String, Option, none, some, List, [], ◌∷◌, Bool, true, false, not, ◌&&◌, ◌==◌, any, Result, ok,
  err, Check, wrap, if◌then◌else◌, resolve_gvr, add_event_handler_failed, kind_not_found,
}
use resource_action_operator.Std.{Std, Unstructured}
use resource_action_operator.Kube.{GroupVersionResource, ApiResource}
use resource_action_operator.Runtime.{Runtime, start_factory, run_informer}
use resource_action_operator.Matching.{GroupVersionKind, MatchInput, create, update, delete}
use resource_action_operator.Executor.Run.{execute}
use resource_action_operator.Cron.{CronKey, ensure_for_match}

-- The fields of Engine that its operations change, `cron_started` being that of its cron engine.
pub record Engine : Type 0 where
  pub started : Bool
  pub cron_started : Bool
  pub informers : List GroupVersionResource

abbrev pub new_engine : Engine
new_engine = record { started = false; cron_started = false; informers = [] }

-- The loop of restMapping: the resource of the first entry of the kind.
unfoldable pub find_kind : GroupVersionKind → List ApiResource → Option GroupVersionResource
find_kind gvk [] = none
find_kind gvk (r ∷ resources) =
    if r.kind == gvk.kind
    then some (record { group = gvk.group; version = gvk.version; resource = r.name })
    else find_kind gvk resources

abbrev pub found_or :
    GroupVersionKind → String → Option GroupVersionResource → Result GroupVersionResource
found_or gvk gv (some gvr) = ok gvr
found_or gvk gv none = err (kind_not_found gvk.kind gv)

abbrev pub map_resources :
    GroupVersionKind → String → Result (List ApiResource) → Result GroupVersionResource
map_resources gvk gv (err e) = err e
map_resources gvk gv (ok resources) = found_or gvk gv (find_kind gvk resources)

unfoldable pub same_gvr : GroupVersionResource → GroupVersionResource → Bool
same_gvr a b = a.group == b.group && a.version == b.version && a.resource == b.resource

unfoldable pub is_watched : List GroupVersionResource → GroupVersionResource → Bool
unfolding same_gvr
is_watched informers gvr = any (λ i. same_gvr i gvr) informers

-- What a handler of an informer is given.
pub data Delivered : Type 0 where
  object : Unstructured → Delivered
  deleted_final_state : Option Unstructured → Delivered
  other : Delivered

-- What it hands to onEvent; `nil_object` is an input without an object.
pub data Handled : Type 0 where
  ignored nil_object : Handled
  dispatched : MatchInput → Handled

unfoldable pub add_func : GroupVersionKind → Delivered → Handled
add_func gvk (object u) = dispatched (record { event = create; gvk = gvk; obj = u; old_obj = none })
add_func gvk (deleted_final_state u) = ignored
add_func gvk other = ignored

unfoldable pub update_func : GroupVersionKind → Delivered → Delivered → Handled
update_func gvk (object old) (object new) =
    dispatched (record { event = update; gvk = gvk; obj = new; old_obj = some old })
update_func gvk _ _ = ignored

abbrev pub deleted_input : GroupVersionKind → Unstructured → MatchInput
deleted_input gvk u = record { event = delete; gvk = gvk; obj = u; old_obj = none }

unfoldable pub delete_func : GroupVersionKind → Delivered → Handled
delete_func gvk (object u) = dispatched (deleted_input gvk u)
delete_func gvk (deleted_final_state (some u)) = dispatched (deleted_input gvk u)
delete_func gvk (deleted_final_state none) = nil_object
delete_func gvk other = ignored

module _ {W : Type 0} (std : Std) (rt : Runtime W) where
  unfoldable pub rest_mapping : GroupVersionKind → W → Result GroupVersionResource × W
  unfolding find_kind
  rest_mapping gvk w =
      let gv = std.group_version gvk.group gvk.version in
      let (resources, w') = rt.server_resources gv w in (map_resources gvk gv resources, w')

  -- The factory is started with the first informer, a later informer by itself.
  unfoldable pub start_informer : GroupVersionResource → Engine × W → Engine × W
  start_informer gvr (e, w) =
      if not e.started
      then (record e { started = true; cron_started = true }, rt.start start_factory w)
      else (e, rt.start (run_informer gvr) w)

  unfoldable pub after_handler : GroupVersionResource → Engine → Check × W → Check × (Engine × W)
  unfolding start_informer
  after_handler gvr e (err x, w) = (err (add_event_handler_failed x), (e, w))
  after_handler gvr e (ok _, w) =
      (ok tt, start_informer gvr (record e { informers = gvr ∷ e.informers }, w))

  unfoldable pub after_mapping :
      GroupVersionKind → Engine → Result GroupVersionResource × W → Check × (Engine × W)
  unfolding after_handler is_watched
  after_mapping gvk e (err x, w) = (err (resolve_gvr x), (e, w))
  after_mapping gvk e (ok gvr, w) =
      if is_watched e.informers gvr
      then (ok tt, (e, w))
      else after_handler gvr e (rt.add_event_handler gvr gvk w)

  -- EnsureWatching, under its mutex.
  unfoldable pub ensure_watching : GroupVersionKind → Engine × W → Check × (Engine × W)
  unfolding rest_mapping after_mapping
  ensure_watching gvk (e, w) = after_mapping gvk e (rest_mapping gvk w)

  -- onEvent: both errors are logged only.
  unfoldable pub on_event : Bool → MatchInput → List CronKey × W → List CronKey × W
  unfolding ensure_for_match execute
  on_event has_recorder input s =
      let (registered, (jobs, w)) = ensure_for_match std rt input s in
      let (executed, w') = execute std rt has_recorder input w in (jobs, w')
