-- ===== src/Runner/Run/Lifecycle.antt =====
-- Run itself (internal/runner/runner.go).
use Prim.Native.String.{String}
use text.Mathlib.Text.{◌==◌ as str_eq}
use loadtool.Prelude.{
  List, [], ◌∷◌, ◌++◌, map, Option, none, some, Bool, true, false, if◌then◌else◌, Bytes,
}
use loadtool.Prelude.Int.{ℤ, pos}
use loadtool.Prelude.Float.{Float}
use loadtool.Prelude.Result.{Result, ok, err}
use loadtool.Config.Scenario.{Scenario}
use loadtool.Config.Run.{TextLib, Overrides, Config}
use loadtool.Config.Run as Config
use loadtool.Config.Run.Chosen.{resolve, validate_config}
use loadtool.Thresholds.{Kind, Threshold, evaluate}
use loadtool.Thresholds as Thresholds
use loadtool.Thresholds.Parse.{parse}
use loadtool.Script.{
  Program, loaded, with_setup_data, with_keep_cookies, with_discard_response_bodies,
  lifecycle_program, with_execs,
}
use loadtool.Runner.Action.{Done, Action, perform, value, effect, ◌>>>◌, deferring}
use loadtool.Runner.Run.{
  Host, Warning, option_ignored, scenarios_replaced, not_closed_modules, not_closed_lifecycle, Load,
  Call, load_script, start_modules, lifecycle_init, read_options, prepare_execs, setup, teardown,
  close_lifecycle, close_idle, close_modules, Stop, script_failed, bad_config, StartError, invalid,
  bad_thresholds, no_default, bad_exec, not_started, is_ok, failing, failing_call,
}
use loadtool.Runner.Run.Start.{Engined, run_engine, close_vus, close_call, warned}

module _ (h : Host) (fl : Float) (seconds : ℤ → fl.F) (parse_float : Bytes → fl.F) where
  open h use {World, Code, Vm, Data, Failure}

  pub record Params : Type 0 where
    pub config : Config
    pub overrides : Overrides
    pub getenv : String → Option String
    pub lib : TextLib
    pub warn : Option (Warning Failure → World → World)

  -- report.Result
  pub record TestResult : Type 0 where
    pub config : Config
    pub elapsed : ℤ
    pub interrupted : Bool
    pub measured : Thresholds.Measured
    pub thresholds : List (Thresholds.Result fl seconds)
    pub teardown_error : String

  abbrev pub Act : Type 0 → Type 0
  Act A = Action World (Stop Failure) Call A

  abbrev pub warn_with : Option (Warning Failure → World → World) → Warning Failure → World → World
  warn_with none msg w = w
  warn_with (some warn) msg w = warn msg w

  -- The loop over the unknown options.
  abbrev pub warn_unknown : Option (Warning Failure → World → World) → List String → World → World
  warn_unknown warn [] w = w
  warn_unknown warn (k ∷ ks) w = warn_unknown warn ks (warn_with warn (option_ignored k) w)

  abbrev pub warn_replaced : Params → Config → World → World
  warn_replaced p c w = if c.scenarios_replaced then warn_with p.warn scenarios_replaced w else w

  abbrev pub add_name :
      String → Result (Stop Failure) (List String) → Result (Stop Failure) (List String)
  add_name n (ok ns) = ok (n ∷ ns)
  add_name n (err e) = err e

  -- The loop of prepareExecs.
  abbrev pub exec_names : Bool → List Scenario → Result (Stop Failure) (List String)
  exec_names exported [] = ok []
  exec_names exported (s ∷ ss) =
      let rest = exec_names exported ss in
      if str_eq s.exec "default"
      then (if exported then rest else err (no_default s.name))
      else add_name s.exec rest

  abbrev pub prepare_with :
      Program Code Data
      → Result (Stop Failure) (List String)
      → Result (Stop Failure) (Program Code Data)
  prepare_with prog (err e) = err e
  prepare_with prog (ok names) = failing bad_exec (with_execs h.sort h.exports h.compile prog names)

  -- What the settings come to.
  pub record Plan : Type 0 where
    pub config : Config
    pub thresholds : List (Threshold fl seconds)
    pub program : Program Code Data

  abbrev pub resolved : Config × List Config.Error → Result (Stop Failure) Config
  resolved (c, []) = ok c
  resolved (c, e ∷ es) = err (bad_config (e ∷ es))

  abbrev pub validated : Config → Result (Stop Failure) (Unit {0})
  validated c = elim (validate_config c) [ [] ↦ ok tt | e ∷ es ↦ err (invalid (e ∷ es)) ]

  abbrev pub settings : Config → Program Code Data → Program Code Data
  settings c prog =
      with_keep_cookies c.no_cookies_reset
        (with_discard_response_bodies c.discard_response_bodies prog)

  -- From the script's options to the prepared program.
  unfoldable pub configure : Params → List (String × Kind) → Program Code Data → Vm → Act Plan
  configure p families prog lc =
      perform (λ r. read_options (is_ok r)) (failing_call script_failed (h.options lc)) >>> λ raw.
      value (failing script_failed (h.parse_options raw)) >>> λ opts.
      effect (warn_unknown p.warn opts.unknown) >>> λ told.
      value (resolved (resolve p.lib p.config p.overrides p.getenv opts.options)) >>> λ c.
      value (validated c) >>> λ fine.
      value (failing bad_thresholds (parse fl seconds parse_float families opts.thresholds))
      >>> λ ths.
          perform (λ r. prepare_execs (is_ok r))
            (λ w. (prepare_with (settings c prog) (exec_names (h.has_default lc) c.scenarios), w))
          >>> λ prog'. effect (warn_replaced p c) >>> λ told.
              value (ok (record { config = c; thresholds = ths; program = prog' }))

  abbrev pub error_text : Option Failure → String
  error_text none = ""
  error_text (some e) = h.text e

  abbrev pub test_result : Plan → Load → Bool → World → Option Failure → TestResult
  test_result plan load interrupted w failure =
      let measured = record load.measured { families = h.families w } in
      record {
        config = plan.config;
        elapsed = load.elapsed;
        interrupted = interrupted;
        measured = measured;
        thresholds = evaluate fl seconds plan.thresholds measured load.elapsed;
        teardown_error = error_text failure;
      }

  -- What Run returns after teardown. `w` is the world when the families are read.
  abbrev pub outcome :
      Plan
      → Result (StartError Failure) Load
      → Bool
      → World
      → Option Failure
      → Result (Stop Failure) TestResult
  outcome plan (err e) interrupted w failure = err (not_started e failure)
  outcome plan (ok load) interrupted w failure = ok (test_result plan load interrupted w failure)

  abbrev pub is_none : Option Failure → Bool
  is_none none = true
  is_none (some e) = false

  -- From the end of the load phase on. Teardown ignores a cancellation that came before it.
  abbrev pub tear_down :
      Params → Vm → Plan → Option Data → Engined h → Done World (Stop Failure) Call TestResult
  tear_down p lc plan data_ e =
      let w = close_vus h p.warn e.vus e.world in
      let t = h.teardown lc (h.cancelled w) plan.config.teardown_timeout data_ w in
      record {
        result = outcome plan e.result (h.cancelled e.world) w t.0;
        world = t.1;
        calls = e.calls ++ (map (close_call h) e.vus ++ (teardown (is_none t.0) ∷ []));
      }

  unfoldable pub run_load : Params → Vm → Plan → Option Data → Act TestResult
  run_load p lc plan data_ w =
      tear_down p lc plan data_
        (run_engine h (with_setup_data data_ plan.program) plan.config.scenarios w)

  -- The deferred calls, last in first out: the lifecycle runtime and then the idle connections.
  abbrev pub with_setup : Params → Vm → Plan → Act TestResult
  with_setup p lc plan = deferring h.close_idle close_idle (
      deferring (λ w. warned h p.warn not_closed_lifecycle (h.close_vm lc w)) close_lifecycle
        (perform (λ r. setup (is_ok r))
            (failing_call script_failed (h.setup lc plan.config.setup_timeout))
          >>> run_load p lc plan))

  -- NewLifecycle and what follows it.
  abbrev pub with_modules : Params → Code → List (String × Kind) → Act TestResult
  with_modules p code families =
      perform (λ r. lifecycle_init (is_ok r))
        (failing_call script_failed
          (h.run_init (lifecycle_program (loaded code)) (pos 0) "default"))
      >>> λ lc. configure p families (loaded code) lc >>> with_setup p lc

  abbrev pub with_script : Params → Code → Act TestResult
  with_script p code =
      perform (λ r. start_modules (is_ok r)) (failing_call script_failed h.start_modules)
      >>> λ families.
          deferring (λ w. warned h p.warn not_closed_modules (h.close_modules w)) close_modules
            (with_modules p code families)

  -- Run. Without a script, the error is the one of Validate.
  unfoldable pub run : Params → Act TestResult
  run p =
      if str_eq p.config.script ""
      then value (err (invalid (validate_config p.config)))
      else (perform (λ r. load_script (is_ok r))
            (failing_call script_failed (h.load p.config.script))
          >>> with_script p)
