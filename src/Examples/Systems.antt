-- ===== src/Examples/Systems.antt =====
-- The system of the operator (internal/engine/engine.go, internal/engine/cron_engine.go) on concrete
-- handlers.
use resource_action_operator.Prelude.{refl, [], true}
use resource_action_operator.Engine.{new_engine}
use resource_action_operator.System.{System, Reach, handles, reconciles, run_handler, trans}
use resource_action_operator.System.Safe.{IsSafe, Keeps, Reach-IsSafe}
use resource_action_operator.System.Handlers.{run_handler-Reach}
use resource_action_operator.Examples.Sample.{
  World, sample_std, sample_runtime, sample_input, start_world,
}

abbrev start_system : System World
start_system = record { engine = new_engine; jobs = []; world = start_world }

start_system-IsSafe : IsSafe start_system
start_system-IsSafe = record {
  engine = record { distinct = tt; started = refl; cron = refl };
  jobs = tt;
}

abbrev watching : System World
watching =
    run_handler sample_std sample_runtime true (reconciles true "deployment-webhook" "default")
      start_system

start-Reach :
    Reach sample_std sample_runtime start_system
      (run_handler sample_std sample_runtime true (handles sample_input) watching)
start-Reach =
    trans sample_std sample_runtime
      (run_handler-Reach sample_std sample_runtime start_system true
        (reconciles true "deployment-webhook" "default"))
      (run_handler-Reach sample_std sample_runtime watching true (handles sample_input))

Reach-IsSafe_example :
    IsSafe (run_handler sample_std sample_runtime true (handles sample_input) watching)
    × Keeps start_system
        (run_handler sample_std sample_runtime true (handles sample_input) watching)
Reach-IsSafe_example = Reach-IsSafe sample_std sample_runtime start_system-IsSafe start-Reach
