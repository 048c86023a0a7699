-- ===== src/Runner/Tests.antt =====
-- A resolved scenario as the engine's executor.
use loadtool.Prelude.{◌≡◌, refl, [], ◌∷◌, none, some, arith}
use loadtool.Prelude.Int.{pos, add_int64}
use loadtool.Prelude.Result.{ok}
use loadtool.Config.Scenario.{
  Scenario, ScenarioOptions, max_vus, scenario_length, kind_of, stages_max, stages_length,
}
use loadtool.Config.Scenario.Resolve.{
  resolve_scenario, resolve_exec, misplaced, resolve_ramping, copy_stages,
}
use loadtool.Engine.Executor.{validate}
use loadtool.Runner.{engine_executor}
use loadtool.Runner.Accepted.{resolve_scenario-validate}

-- Up to eight VUs in a minute, with a pause of two seconds.
abbrev stages_of : ScenarioOptions
stages_of = record {
  executor = "ramping-vus";
  exec = none;
  start_time = none;
  graceful_stop = none;
  vus = none;
  duration = none;
  start_vus = none;
  stages = some (
      record { duration = pos 60_000_000_000; target = pos 8 }
      ∷ record { duration = pos 2_000_000_000; target = pos 8 }
      ∷ []);
  graceful_ramp_down = none;
  rate = none;
  time_unit = none;
  pre_allocated_vus = none;
  max_vus = none;
}

abbrev up : Scenario
up = record {
  name = "up";
  executor = "ramping-vus";
  exec = "default";
  start_time = pos 0;
  graceful_stop = pos 30_000_000_000;
  vus = pos 0;
  duration = pos 0;
  start_vus = pos 1;
  stages =
      record { duration = pos 60_000_000_000; target = pos 8 }
      ∷ record { duration = pos 2_000_000_000; target = pos 8 }
      ∷ [];
  graceful_ramp_down = pos 30_000_000_000;
  rate = pos 0;
  time_unit = pos 0;
  pre_allocated_vus = pos 0;
}

up_resolves : resolve_scenario "up" stages_of ≡ ok up
unfolding resolve_scenario resolve_exec kind_of misplaced resolve_ramping copy_stages
    scenario_length stages_length add_int64 max_vus stages_max
up_resolves = refl

resolve_scenario-validate_example : validate (engine_executor up) ≡ none
unfolding kind_of max_vus scenario_length stages_max stages_length add_int64
resolve_scenario-validate_example =
    resolve_scenario-validate "up" stages_of up up_resolves (λ e. (omega arith, omega arith))
