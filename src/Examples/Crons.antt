-- ===== src/Examples/Crons.antt =====
-- The cron engine (internal/engine/cron_engine.go) on a concrete event.
use resource_action_operator.Prelude.{◌≡◌, refl, [], ◌∷◌, true, length, inr}
use resource_action_operator.Prelude.Text.{equal_fold}
use resource_action_operator.Api.{ResourceAction}
use resource_action_operator.Examples.Sample.{
  sample_std, sample_runtime, sample_action, sample_input, start_world, cron_action,
}
use resource_action_operator.Cron.{ensure_all, run_cron_until, is_registered}
use resource_action_operator.Cron.Registered.{
  wanted, start_new, AllRegistered, ensure_all-eq-start_new, ensure_all_once,
}
use resource_action_operator.Cron.Ticks.{run_cron_quiet}
use resource_action_operator.Matching.{concerns}

ensure_all-eq-start_new_example :
    ensure_all sample_std sample_runtime sample_input (sample_action ∷ []) ([], start_world)
    ≡ start_new sample_runtime
        (wanted sample_std sample_input (sample_action ∷ []))
        ([], start_world)
ensure_all-eq-start_new_example =
    ensure_all-eq-start_new sample_std sample_runtime sample_input (sample_action ∷ [])
      ([], start_world)

ensure_all_once_example :
    let s' =
      ensure_all sample_std sample_runtime sample_input (sample_action ∷ []) ([], start_world) in
    AllRegistered (wanted sample_std sample_input (sample_action ∷ [])) s'
    × (ensure_all sample_std sample_runtime sample_input (sample_action ∷ []) s' ≡ s')
ensure_all_once_example =
    ensure_all_once sample_std sample_runtime sample_input (sample_action ∷ []) ([], start_world)

-- Two resources of one name in two namespaces share the keys of their cron actions.
one_of_two :
    length
      (ensure_all sample_std sample_runtime sample_input
        (sample_action ∷ record sample_action { namespace = "other" } ∷ [])
        ([], start_world)).0
    ≡ 1
unfolding ensure_all is_registered concerns equal_fold
one_of_two = refl

abbrev cron_only : ResourceAction
cron_only = record sample_action { spec = record sample_action.spec { actions = cron_action ∷ [] } }

run_cron_quiet_example :
    run_cron_until sample_std sample_runtime true cron_only cron_action sample_input 5
      (record start_world { stored = cron_only ∷ [] })
    ≡ record start_world { stored = cron_only ∷ [] }
run_cron_quiet_example =
    run_cron_quiet sample_std sample_runtime true cron_only cron_action sample_input
      (cron_only ∷ []) (record start_world { stored = cron_only ∷ [] }) 5
      (record { listed = refl; found = refl; idle = (inr (inr (refl, tt)), tt) })
