-- ===== src/Executor/Run/Once.antt =====
-- An event is executed at most once (Execute of internal/engine/executor.go).
use resource_action_operator.Prelude.{
  ◌≡◌, refl, sym, ap, subst, ◌∙◌, inl, inr, List, [], ◌∷◌, ◌++◌, All, Bool, true, ok, Check,
}
use mathlib.Core.List.{append-nil}
use resource_action_operator.Api.{ResourceAction}
use resource_action_operator.Std.{Std}
use resource_action_operator.Runtime.{Runtime}
use resource_action_operator.Matching.{MatchInput}
use resource_action_operator.Executor.Run.{execute, execute_all}
use resource_action_operator.Executor.Run.Effects.{IsIdle, execute_all_idle}
use resource_action_operator.Executor.Run.Step.{with_status, set_status, IsStore}
use resource_action_operator.Executor.Run.Settled.{execute_one-Step}
use resource_action_operator.Executor.Run.Later.{
  executed, AllLater, AllLater-refl, Later-IsIdle, with_status-AllLater, set_status-IsIdle,
  own_status-IsIdle,
}

module _ {ℓ} {A : Type ℓ} where
  All-append {κ} : (P : A → Type κ) (xs ys : List A) → All P xs → All P ys → All P (xs ++ ys)
  All-append P [] ys p q = q
  All-append P (x ∷ xs) ys p q = (p.0, All-append P xs ys p.1 q)

  append_one : (xs : List A) (y : A) (ys : List A) → (xs ++ (y ∷ ys)) ≡ ((xs ++ y ∷ []) ++ ys)
  append_one [] y ys = refl
  append_one (x ∷ xs) y ys = ap (λ l. x ∷ l) (append_one xs y ys)

set_status-append :
    (new : ResourceAction) (xs ys : List ResourceAction)
    → set_status new (xs ++ ys) ≡ (set_status new xs ++ set_status new ys)
set_status-append new [] ys = refl
set_status-append new (x ∷ xs) ys = ap (λ l. with_status new x ∷ l) (set_status-append new xs ys)

module _ {W : Type 0} (std : Std) (rt : Runtime W) (has_recorder : Bool) (input : MatchInput)
    (stored : W → List ResourceAction) (store : IsStore rt stored) where
  -- Behind the resources that are idle stand later versions of those that the loop has left.
  record Progress (ras : List ResourceAction) (w : W) : Type 0 where
    done : List ResourceAction
    left : List ResourceAction
    split : stored w ≡ (done ++ left)
    idle : All (IsIdle std input) done
    later : AllLater std input ras left

  passed :
      (ra : ResourceAction) (ras : List ResourceAction) (w v : W)
      → IsIdle std input ra
      → stored v ≡ stored w
      → Progress (ra ∷ ras) w
      → Progress ras v
  passed ra ras w v idle kept p = go p.left p.split p.later
    where
      go :
          (left : List ResourceAction)
          → stored w ≡ (p.done ++ left)
          → AllLater std input (ra ∷ ras) left
          → Progress ras v
      go [] split later = elim later [ ]
      go (ra' ∷ left) split later = record {
        done = p.done ++ ra' ∷ [];
        left = left;
        split = kept ∙ split ∙ append_one p.done ra' left;
        idle =
            All-append (IsIdle std input) p.done (ra' ∷ []) p.idle
              (Later-IsIdle std input ra ra' later.0 idle, tt);
        later = later.1;
      }

  recorded :
      (ra new : ResourceAction) (ras : List ResourceAction) (w v : W)
      → executed std input new ≡ true
      → new.name ≡ ra.name
      → new.namespace ≡ ra.namespace
      → stored v ≡ set_status new (stored w)
      → Progress (ra ∷ ras) w
      → Progress ras v
  recorded ra new ras w v done name namespace after p = go p.left p.split p.later
    where
      go :
          (left : List ResourceAction)
          → stored w ≡ (p.done ++ left)
          → AllLater std input (ra ∷ ras) left
          → Progress ras v
      go [] split later = elim later [ ]
      go (ra' ∷ left) split later = record {
        done = set_status new p.done ++ with_status new ra' ∷ [];
        left = set_status new left;
        split =
            after
            ∙ ap (set_status new) split
            ∙ set_status-append new p.done (ra' ∷ left)
            ∙ append_one (set_status new p.done) (with_status new ra') (set_status new left);
        idle =
            All-append (IsIdle std input) (set_status new p.done) (with_status new ra' ∷ [])
              (set_status-IsIdle std input new p.done done p.idle)
              (own_status-IsIdle std input new ra ra' done name namespace later.0, tt);
        later = with_status-AllLater std input new ras left done later.1;
      }

  finished : (w : W) (p : Progress [] w) → All (IsIdle std input) (stored w)
  finished w p = go p.left p.split p.later
    where
      go :
          (left : List ResourceAction)
          → stored w ≡ (p.done ++ left)
          → AllLater std input [] left
          → All (IsIdle std input) (stored w)
      go [] split later = subst (All (IsIdle std input)) (sym (split ∙ append-nil p.done)) p.idle
      go (ra' ∷ left) split later = elim later [ ]

  -- The resources that a run without an error leaves are idle for its event.
  abbrev AllIdle : Check × W → Type 0
  AllIdle p = p.0 ≡ ok tt → All (IsIdle std input) (stored p.1)

  all_idle :
      (ras : List ResourceAction) (w : W)
      → Progress ras w
      → AllIdle (execute_all std rt has_recorder input ras w)
  unfolding execute_all
  all_idle [] w p h = finished w p
  all_idle (ra ∷ ras) w p h =
      elim (execute_one-Step std rt has_recorder input stored store ra
        (execute_all std rt has_recorder input ras) w h) [
          | inl (idle, (v, same, kept)) ↦
              subst AllIdle (sym same) (all_idle ras v (passed ra ras w v idle kept p)) h
          | inr (new, (name, namespace, done), (v, same, after)) ↦
              subst AllIdle (sym same)
                (all_idle ras v (recorded ra new ras w v done name namespace after p)) h
        ]

  -- A List that sees what is stored.
  abbrev pub IsFresh : W → Type 0
  IsFresh w = rt.list_actions w ≡ (ok (stored w), w)

  execute-eq-execute_all :
      (w : W)
      → IsFresh w
      → execute std rt has_recorder input w ≡ execute_all std rt has_recorder input (stored w) w
  unfolding execute
  execute-eq-execute_all w fresh = rw fresh refl

  -- If only the executor writes ResourceActions, an event whose execution ends without an error is
  -- executed once: executing it again for the object does nothing, without an error. Each of the two
  -- executions must list what is stored when it begins, so the client may not lag behind the writes of
  -- the first one when the second one begins.
  pub execute_once :
      (w w' : W)
      → IsFresh w
      → execute std rt has_recorder input w ≡ (ok tt, w')
      → IsFresh w'
      → execute std rt has_recorder input w' ≡ (ok tt, w')
  execute_once w w' fresh h fresh_again =
      let same = execute-eq-execute_all w fresh in
      let start : Progress (stored w) w = record {
        done = [];
        left = stored w;
        split = refl;
        idle = tt;
        later = AllLater-refl std input (stored w);
      } in
      execute-eq-execute_all w' fresh_again
      ∙ execute_all_idle std rt has_recorder input (stored w') w'
          (subst AllIdle (sym same ∙ h) (all_idle (stored w) w start) refl)
