-- ===== src/Config/Run.antt =====
-- Resolve and Validate (internal/config/options.go, config.go) and resolveScenarios
-- (internal/config/scenarios.go). Parsing of numbers and durations and trimming of texts are the Go
-- library's. A map of the script is its entries in the order of their keys. An error that the code
-- joins from several is a list.
pub mod Chosen
pub mod Sound
pub mod Resolved
use Prim.Native.String.{String}
use text.Mathlib.Text.{◌==◌ as str_eq}
use loadtool.Prelude.{
  ℕ, List, [], ◌∷◌, ◌++◌, Option, none, some, Bool, true, false, ◌&&◌, ◌||◌, not, if◌then◌else◌,
}
use loadtool.Prelude.Int.{ℤ, pos, ◌+ℤ◌, ltb_ℤ, leb_ℤ}
use loadtool.Prelude.Result.{Result, ok, err, ◌>>=◌, ◌>>◌, refuse}
use loadtool.Config.Scenario.{
  Stage, Scenario, ScenarioOptions, max_vus, scenario_length, max_ℤ, is_set,
}
use loadtool.Config.Scenario as Scenario
use loadtool.Config.Scenario.Resolve.{resolve_scenario}

-- strconv.Atoi and time.ParseDuration (none for an error), and strings.TrimSpace.
pub record TextLib : Type 0 where
  pub atoi : String → Option ℤ
  pub parse_duration : String → Option ℤ
  pub trim_space : String → String

pub record Options : Type 0 where
  pub vus : Option ℤ
  pub duration : Option ℤ
  pub discard_response_bodies : Option Bool
  pub no_cookies_reset : Option Bool
  pub no_connection_reuse : Option Bool
  pub http_version : Option String
  pub setup_timeout : Option ℤ
  pub teardown_timeout : Option ℤ
  pub scenarios : Option (List (String × ScenarioOptions))
  pub stages : Option (List Stage)

pub record Overrides : Type 0 where
  pub vus : Option ℤ
  pub duration : Option ℤ

pub record Config : Type 0 where
  pub script : String
  pub vus : ℤ
  pub duration : ℤ
  pub graceful_stop : ℤ
  pub discard_response_bodies : Bool
  pub no_cookies_reset : Bool
  pub no_connection_reuse : Bool
  pub http_version : String
  pub setup_timeout : ℤ
  pub teardown_timeout : ℤ
  pub scenarios : List Scenario
  pub scenarios_replaced : Bool

pub data Source : Type 0 where
  command_line environment script_options default : Source

pub data Error : Type 0 where
  env_vus_malformed env_duration_malformed : Error
  -- The value and where it came from.
  vus_too_few : ℤ → Source → Error
  duration_not_positive : ℤ → Source → Error
  mixed_shorthand no_scenarios stages_with_duration : Error
  in_scenario : String → Scenario.Error → Error
  in_stages : Scenario.Error → Error
  setup_timeout_not_positive teardown_timeout_not_positive : Error

abbrev pub default_vus : ℤ
default_vus = pos 1

-- 10 and 60 seconds
abbrev pub default_duration : ℤ
default_duration = pos 10_000_000_000

abbrev pub default_lifecycle_timeout : ℤ
default_lifecycle_timeout = pos 60_000_000_000

abbrev pub is_true : Option Bool → Bool
is_true (some b) = b
is_true none = false

-- options.stages as one ramping-vus scenario.
abbrev pub stages_options : ℤ → ℤ → List Stage → ScenarioOptions
stages_options vus graceful_stop stages = record {
  executor = "ramping-vus";
  exec = none;
  start_time = none;
  graceful_stop = some graceful_stop;
  vus = none;
  duration = none;
  start_vus = some vus;
  stages = some stages;
  graceful_ramp_down = none;
  rate = none;
  time_unit = none;
  pre_allocated_vus = none;
  max_vus = none;
}

-- The shorthand's one constant-vus scenario.
abbrev pub shorthand : ℤ → ℤ → ℤ → Scenario
shorthand vus duration graceful_stop = record {
  name = "default";
  executor = "constant-vus";
  exec = "default";
  start_time = pos 0;
  graceful_stop = graceful_stop;
  vus = vus;
  duration = duration;
  start_vus = pos 0;
  stages = [];
  graceful_ramp_down = pos 0;
  rate = pos 0;
  time_unit = pos 0;
  pre_allocated_vus = pos 0;
}

-- The loop over the scenarios, with `out` and the joined `errs`.
abbrev pub collect :
    String
    → Result Scenario.Error Scenario
    → List Scenario × List Error
    → List Scenario × List Error
collect name (ok s) (out, errs) = (s ∷ out, errs)
collect name (err e) (out, errs) = (out, in_scenario name e ∷ errs)

unfoldable pub resolve_each : List (String × ScenarioOptions) → List Scenario × List Error
resolve_each [] = ([], [])
resolve_each ((name, o) ∷ rest) = collect name (resolve_scenario name o) (resolve_each rest)

abbrev pub joined : List Scenario × List Error → Result (List Error) (List Scenario × Bool)
joined (out, []) = ok (out, false)
joined (out, e ∷ errs) = err (e ∷ errs)

abbrev pub from_scenarios :
    List (String × ScenarioOptions) → Result (List Error) (List Scenario × Bool)
from_scenarios [] = err (no_scenarios ∷ [])
from_scenarios (s ∷ rest) = joined (resolve_each (s ∷ rest))

abbrev pub in_stages_of :
    Result Scenario.Error Scenario → Result (List Error) (List Scenario × Bool)
in_stages_of (ok s) = ok (s ∷ [], false)
in_stages_of (err e) = err (in_stages e ∷ [])

-- The `switch` of resolveScenarios: on the scenarios, then on the stages.
abbrev pub choose :
    Options
    → Bool
    → ℤ
    → ℤ
    → ℤ
    → Option (List (String × ScenarioOptions))
    → Option (List Stage)
    → Result (List Error) (List Scenario × Bool)
choose script override vus dur graceful (some scs) _ =
    if is_set script.vus || is_set script.duration || is_set script.stages
    then err (mixed_shorthand ∷ [])
    else if override
    then ok (shorthand vus dur graceful ∷ [], true)
    else from_scenarios scs
choose script override vus dur graceful none (some stages) =
    if is_set script.duration
    then err (stages_with_duration ∷ [])
    else if override
    then ok (shorthand vus dur graceful ∷ [], true)
    else in_stages_of (resolve_scenario "default" (stages_options vus graceful stages))
choose script override vus dur graceful none none = ok (shorthand vus dur graceful ∷ [], false)

unfoldable pub resolve_scenarios :
    Options → Bool → ℤ → ℤ → ℤ → Result (List Error) (List Scenario × Bool)
resolve_scenarios script override vus dur graceful =
    choose script override vus dur graceful script.scenarios script.stages
