-- ===== src/Examples/Matchings.antt =====
-- The filters (internal/engine/executor.go) on a concrete event.
use mathlib.Core.List.{Perm, Permᴰ}
use resource_action_operator.Prelude.{◌≡◌, refl, ◌↔◌, some, true, [], ◌∷◌}
use resource_action_operator.Examples.Sample.{sample_std, sample_filter, sample_input}
use resource_action_operator.Matching.{matches_filters}
use resource_action_operator.Matching.Filters.{Matches, matches_filters_iff}

matches_sample : matches_filters sample_std (some sample_filter) sample_input ≡ true
unfolding matches_filters
matches_sample = refl

matches_filters_iff_example :
    (matches_filters sample_std (some sample_filter) sample_input ≡ true)
    ↔ Matches sample_std sample_filter sample_input
matches_filters_iff_example = matches_filters_iff sample_std sample_filter sample_input

swapped : Perm sample_filter.labels (("tier", "front") ∷ ("app", "web") ∷ [])
swapped = ∣ Permᴰ.swap refl refl ∣₁
