-- ===== src/Runner/Run.antt =====
-- Run of internal/runner/runner.go with what it calls: prepareExecs, engineScenarios, the creation of
-- the VUs in RunScenariosSampled (internal/engine/scenario.go), teardownContext and closeAndWarn. The
-- script runtime, the protocol modules, the HTTP client and the VUs' goroutines are the record Host:
-- its World is everything outside of Run. A warning is an effect on it, which the caller supplies.
pub mod Start
pub mod Lifecycle
pub mod Numbered
pub mod Legal
pub mod Judged
mod Tests
use Prim.Native.String.{String}
use text.Mathlib.Text.{◌==◌ as str_eq}
use loadtool.Prelude.{
  ℕ, zero, suc, ◌+◌, List, [], ◌∷◌, ◌++◌, map, length, Option, none, some, Bool, true, false, not,
  if◌then◌else◌, Bytes,
}
use loadtool.Prelude.Int.{ℤ, pos, pos_part, ◌+ℤ◌}
use loadtool.Prelude.Float.{Float}
use loadtool.Prelude.Result.{Result, ok, err}
use loadtool.Config.Scenario.{Scenario, max_vus}
use loadtool.Config.Run.{TextLib, Options, Overrides, Config}
use loadtool.Config.Run as Config
use loadtool.Config.Run.Chosen.{Invalid, resolve, validate_config}
use loadtool.Engine.Executor.{Executor, executor_max_vus, validate}
use loadtool.Engine.Executor as Executor
use loadtool.Thresholds.{Kind, Measured, FamilySummary, Threshold, evaluate}
use loadtool.Thresholds as Thresholds
use loadtool.Thresholds.Parse.{Problem, parse}
use loadtool.Script.{
  Program, loaded, with_setup_data, with_keep_cookies, with_discard_response_bodies,
  lifecycle_program, ExecError, with_execs, is_prepared,
}
use loadtool.Runner.{engine_executor}
use loadtool.Runner.Action.{
  Done, Action, logged, perform, value, effect, ◌>>>◌, deferring, after_calls, continue,
}

pub data Warning (Failure : Type 0) : Type 0 where
  option_ignored : String → Warning Failure
  scenarios_replaced : Warning Failure
  not_closed_modules not_closed_lifecycle : Failure → Warning Failure
  not_closed_vu : ℤ → Failure → Warning Failure

-- What ParseOptions returns: the options, the thresholds by sorted name, and the unknown keys.
pub record ScriptOptions : Type 0 where
  pub options : Options
  pub thresholds : List (String × List String)
  pub unknown : List String

-- engine.Result, less the series.
pub record Load : Type 0 where
  pub elapsed : ℤ
  pub measured : Measured

pub record Host : Type 1 where
  pub World : Type 0
  pub Code : Type 0
  pub Vm : Type 0
  pub Data : Type 0
  pub Raw : Type 0
  pub Failure : Type 0
  -- script.Load
  pub load : String → World → Result Failure Code × World
  pub start_modules : World → Result Failure (List (String × Kind)) × World
  pub close_modules : World → Option Failure × World
  -- A runtime of its own, in which the script's top-level code runs as a VU with this number.
  pub run_init : Program Code Data → ℤ → String → World → Result Failure Vm × World
  pub options : Vm → World → Result Failure Raw × World
  pub parse_options : Raw → Result Failure ScriptOptions
  pub has_default : Vm → Bool
  pub sort : List String → List String
  pub exports : Code → Result Failure (List String)
  pub compile : Code → List String → Result Failure Code
  pub setup : Vm → ℤ → World → Result Failure (Option Data) × World
  -- With the flag, the context of teardown ignores the cancellation.
  pub teardown : Vm → Bool → ℤ → Option Data → World → Option Failure × World
  pub close_vm : Vm → World → Option Failure × World
  pub close_idle : World → World
  -- ctx.Err() != nil
  pub cancelled : World → Bool
  -- Everything from the start of the clock until every goroutine of the VUs has ended.
  pub load_phase : List Scenario → List Vm → World → Load × World
  pub families : World → List FamilySummary
  -- The text of an error.
  pub text : Failure → String

-- A call of Run with its success: true if it returned no error.
pub data Call : Type 0 where
  load_script start_modules lifecycle_init read_options prepare_execs setup : Bool → Call
  vu_init : ℤ → Bool → Call
  load_phase : ℕ → Call
  close_vu : ℤ → Call
  teardown : Bool → Call
  close_lifecycle close_idle close_modules : Call

pub data StartError (Failure : Type 0) : Type 0 where
  no_scenarios context_ended : StartError Failure
  bad_scenario : String → Executor.Error → StartError Failure
  vu_failed : ℕ → Failure → StartError Failure
  vu_not_prepared : ℕ → String → StartError Failure

pub data Stop (Failure : Type 0) : Type 0 where
  script_failed : Failure → Stop Failure
  bad_config : List Config.Error → Stop Failure
  invalid : List Invalid → Stop Failure
  bad_thresholds : List Problem → Stop Failure
  no_default : String → Stop Failure
  bad_exec : ExecError Failure → Stop Failure
  -- The error of the start joined with the one of teardown, if there is one.
  not_started : StartError Failure → Option Failure → Stop Failure

abbrev pub is_ok : {E A : Type 0} → Result E A → Bool
is_ok (ok a) = true
is_ok (err e) = false

abbrev pub failing : {F A B : Type 0} → (F → B) → Result F A → Result B A
failing f (ok a) = ok a
failing f (err e) = err (f e)

abbrev pub failing_call : {F A B W : Type 0} → (F → B) → (W → Result F A × W) → W → Result B A × W
failing_call f call w = let r = call w in (failing f r.0, r.1)
