-- ===== src/Matching/Labels.antt =====
-- The label filter is a loop over a Go map, whose order is not fixed (matchesFilters of
-- internal/engine/executor.go).
use mathlib.Core.List.{Perm, Permᴰ}
use mathlib.Core.Logic.{∥∥₁_elim}
use mathlib.Core.Bool.{Bool-set}
use resource_action_operator.Prelude.{
  ◌≡◌, refl, ap, ◌∙◌, String, some, List, arith, Bool, ◌&&◌, all,
}
use resource_action_operator.Api.{FilterSpec}
use resource_action_operator.Std.{Std}
use resource_action_operator.Matching.{MatchInput, has_labels, matches_filters}

and_swap : (a b c : Bool) → (a && (b && c)) ≡ (b && (a && c))
and_swap a b c = ground arith

module _ {ℓ} {A : Type ℓ} (p : A → Bool) where
  all-permᴰ : {xs ys : List A} → Permᴰ xs ys → all p xs ≡ all p ys
  all-permᴰ Permᴰ.nil = refl
  all-permᴰ (Permᴰ.cons {b = b} e q) = rw e (ap (λ t. p b && t) (all-permᴰ q))
  all-permᴰ (Permᴰ.swap {a = a} {b = b} {l = l} e f) =
      rw (← e, ← f) (and_swap (p a) (p b) (all p l))
  all-permᴰ (Permᴰ.trans q r) = all-permᴰ q ∙ all-permᴰ r

-- The order in which the map of the labels is walked does not change whether the filter matches.
pub matches_filters-perm :
    (std : Std) (filter : FilterSpec) (labels : List (String × String)) (input : MatchInput)
    → Perm filter.labels labels
    → matches_filters std (some filter) input
      ≡ matches_filters std (some (record filter { labels = labels })) input
unfolding matches_filters has_labels
matches_filters-perm std filter labels input p = ∥∥₁_elim p (Bool-set _ _) (λ q. rw (all-permᴰ _ q))
