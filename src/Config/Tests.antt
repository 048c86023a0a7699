-- ===== src/Config/Tests.antt =====
-- Runs of Resolve, and its theorems at concrete inputs.
use loadtool.Prelude.{arith, ◌≡◌, refl, [], ◌∷◌, none, some, true, false}
use loadtool.Prelude.Int.{pos, ◌+ℤ◌, add_int64}
use loadtool.Prelude.Result.{ok}
use loadtool.Config.Scenario.{
  Kind, Scenario, ScenarioOptions, kind_of, max_vus, scenario_length, stages_max, stages_length,
}
use loadtool.Config.Scenario.Resolve.{
  resolve_scenario, resolve_exec, misplaced, resolve_constant, resolve_ramping, copy_stages,
}
use loadtool.Config.Scenario.Valid.{IsValid, resolve_scenario-IsValid}
use loadtool.Config.Run.{TextLib, Options, Overrides, Config, resolve_each, resolve_scenarios}
use loadtool.Config.Run.Chosen.{resolve, resolve_vus, resolve_duration, env_of, summarize, settle}
use loadtool.Config.Run.Resolved.{IsRunnable, resolve-IsRunnable}

-- Five VUs for ten seconds.
abbrev five_vus : ScenarioOptions
five_vus = record {
  executor = "constant-vus";
  exec = none;
  start_time = none;
  graceful_stop = none;
  vus = some (pos 5);
  duration = some (pos 10_000_000_000);
  start_vus = none;
  stages = none;
  graceful_ramp_down = none;
  rate = none;
  time_unit = none;
  pre_allocated_vus = none;
  max_vus = none;
}

-- A ramp to three VUs, from one, that starts behind a second.
abbrev climb : ScenarioOptions
climb = record five_vus {
  executor = "ramping-vus";
  start_time = some (pos 1_000_000_000);
  vus = none;
  duration = none;
  start_vus = some (pos 1);
  stages = some (record { duration = pos 4_000_000_000; target = pos 3 } ∷ []);
}

abbrev resolved_five : Scenario
resolved_five = record {
  name = "load";
  executor = "constant-vus";
  exec = "default";
  start_time = pos 0;
  graceful_stop = pos 30_000_000_000;
  vus = pos 5;
  duration = pos 10_000_000_000;
  start_vus = pos 0;
  stages = [];
  graceful_ramp_down = pos 0;
  rate = pos 0;
  time_unit = pos 0;
  pre_allocated_vus = pos 0;
}

five_resolves : resolve_scenario "load" five_vus ≡ ok resolved_five
unfolding resolve_scenario resolve_exec kind_of misplaced resolve_constant
five_resolves = refl

resolve_scenario-IsValid_example :
    (k : Kind) × (kind_of resolved_five.executor ≡ some k) × IsValid k resolved_five
resolve_scenario-IsValid_example =
    resolve_scenario-IsValid "load" five_vus resolved_five five_resolves

-- No variable is set, so no text is parsed.
abbrev no_texts : TextLib
no_texts = record { atoi = λ s. none; parse_duration = λ s. none; trim_space = λ s. s }

abbrev no_overrides : Overrides
no_overrides = record { vus = none; duration = none }

abbrev fresh : Config
fresh = record {
  script = "load.js";
  vus = pos 0;
  duration = pos 0;
  graceful_stop = pos 5_000_000_000;
  discard_response_bodies = false;
  no_cookies_reset = false;
  no_connection_reuse = false;
  http_version = "";
  setup_timeout = pos 0;
  teardown_timeout = pos 0;
  scenarios = [];
  scenarios_replaced = false;
}

abbrev two_scenarios : Options
two_scenarios = record {
  vus = none;
  duration = none;
  discard_response_bodies = none;
  no_cookies_reset = some true;
  no_connection_reuse = none;
  http_version = none;
  setup_timeout = some (pos 1_000_000_000);
  teardown_timeout = none;
  scenarios = some (("climb", climb) ∷ ("load", five_vus) ∷ []);
  stages = none;
}

abbrev resolved_climb : Scenario
resolved_climb = record resolved_five {
  name = "climb";
  executor = "ramping-vus";
  start_time = pos 1_000_000_000;
  vus = pos 0;
  duration = pos 0;
  start_vus = pos 1;
  stages = record { duration = pos 4_000_000_000; target = pos 3 } ∷ [];
  graceful_ramp_down = pos 30_000_000_000;
}

abbrev settled : Config
settled = record fresh {
  vus = pos 8;
  duration = pos 10_000_000_000;
  discard_response_bodies = true;
  no_cookies_reset = true;
  http_version = "auto";
  setup_timeout = pos 1_000_000_000;
  teardown_timeout = pos 60_000_000_000;
  scenarios = resolved_climb ∷ resolved_five ∷ [];
}

settles : resolve no_texts fresh no_overrides (λ name. none) two_scenarios ≡ (settled, [])
unfolding resolve resolve_vus env_of resolve_duration resolve_scenarios resolve_each
    resolve_scenario resolve_exec kind_of misplaced resolve_constant resolve_ramping copy_stages
    scenario_length stages_length add_int64 max_vus stages_max summarize settle
settles = refl

resolve-IsRunnable_example : IsRunnable settled
unfolding kind_of max_vus stages_max scenario_length stages_length add_int64 ◌+ℤ◌
resolve-IsRunnable_example =
    resolve-IsRunnable no_texts fresh settled no_overrides (λ name. none) two_scenarios settles
      ((omega arith, (omega arith, tt)), omega arith)
