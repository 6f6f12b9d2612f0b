-- ===== src/Engine/Events.antt =====
-- The inputs that the handlers of an informer hand to onEvent (internal/engine/engine.go).
use resource_action_operator.Prelude.{◌≡◌, refl, none, some, Bool, true, false, is_some}
use resource_action_operator.Matching.{GroupVersionKind, EventType, create, update, delete}
use resource_action_operator.Engine.{
  Delivered, object, deleted_final_state, other, Handled, ignored, nil_object, dispatched, add_func,
  update_func, delete_func,
}

-- A call of a handler.
pub data Notice : Type 0 where
  added deleted : Delivered → Notice
  updated : Delivered → Delivered → Notice

abbrev pub handle : GroupVersionKind → Notice → Handled
handle gvk (added obj) = add_func gvk obj
handle gvk (updated old new) = update_func gvk old new
handle gvk (deleted obj) = delete_func gvk obj

abbrev pub is_update : EventType → Bool
is_update update = true
is_update create = false
is_update delete = false

-- Is the object behind a notice missing from it?
abbrev pub LostObject : Notice → Type 0
LostObject (deleted (deleted_final_state none)) = Unit
LostObject _ = ⊥

abbrev pub IsHandled : GroupVersionKind → Notice → Handled → Type 0
IsHandled gvk notice ignored = Unit
IsHandled gvk notice nil_object = LostObject notice
IsHandled gvk notice (dispatched input) =
    (input.gvk ≡ gvk) × (is_some input.old_obj ≡ is_update input.event)

-- An input that a handler hands on is of the watched kind and has an old object exactly if it is an
-- update; an input without an object comes only from a tombstone that holds none.
pub handle-IsHandled :
    (gvk : GroupVersionKind) (notice : Notice) → IsHandled gvk notice (handle gvk notice)
unfolding add_func update_func delete_func
handle-IsHandled gvk (added (object u)) = (refl, refl)
handle-IsHandled gvk (added (deleted_final_state u)) = tt
handle-IsHandled gvk (added other) = tt
handle-IsHandled gvk (updated (object old) (object new)) = (refl, refl)
handle-IsHandled gvk (updated (object old) (deleted_final_state u)) = tt
handle-IsHandled gvk (updated (object old) other) = tt
handle-IsHandled gvk (updated (deleted_final_state u) new) = tt
handle-IsHandled gvk (updated other new) = tt
handle-IsHandled gvk (deleted (object u)) = (refl, refl)
handle-IsHandled gvk (deleted (deleted_final_state (some u))) = (refl, refl)
handle-IsHandled gvk (deleted (deleted_final_state none)) = tt
handle-IsHandled gvk (deleted other) = tt
