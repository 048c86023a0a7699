-- ===== src/Runner/Run/Tests.antt =====
-- Runs of the runner on a host that is given by functions.
use Prim.Native.String.{String}
use loadtool.Prelude.{
  All, List, map, Option, ◌↔◌, ℕ, suc, true, false, Bool, Bytes, ◌&&◌, if◌then◌else◌, ◌⊎◌, ◌≡◌,
  refl, [], ◌∷◌, none, some,
}
use loadtool.Prelude.Int.{pos_part, pos, ◌+ℤ◌, add_int64}
use loadtool.Prelude.Result.{Result, ok, err}
use loadtool.Config.Scenario.{Scenario, max_vus, scenario_length, kind_of}
use loadtool.Engine.Executor.{stages_max as engine_stages_max, executor_max_vus, validate}
use loadtool.Prelude.Float.{fixed}
use loadtool.Config.Run.{resolve_scenarios}
use loadtool.Config.Run.Chosen.{
  resolve, resolve_vus, resolve_duration, env_of, summarize, settle, validate_config,
}
use loadtool.Thresholds.{Measured}
use loadtool.Thresholds.Pattern.{match_expr}
use loadtool.Thresholds.Parse.{parse, parse_each, parse_exprs, parse_expr, kind_named}
use loadtool.Script.{with_execs}
use loadtool.Script.{Program, loaded}
use loadtool.Report.{verdict}
use loadtool.Thresholds.{Kind, Metric, Threshold}
use loadtool.Thresholds.Evaluated.{Holds}
use loadtool.Thresholds.Parse.Exact.{ReadsAll}
use text.Mathlib.Text.{◌==◌ as str_eq}
use loadtool.Runner.Run.{StartError}
use loadtool.Runner.Action.{Done, perform, value, effect, ◌>>>◌, deferring}
use loadtool.Runner.Run.{
  Host, Call, ScriptOptions, Stop, load_script, start_modules, lifecycle_init, read_options,
  prepare_execs, setup, vu_init, close_vu, teardown, close_lifecycle, close_idle, close_modules,
}
use loadtool.Runner.Run.Start.{vm_of, run_engine, start_all, start_scenarios, start_vus, close_vus}
use loadtool.Runner.Run.Lifecycle.{Params, TestResult, run, configure, run_load}
use loadtool.Runner.Run.Legal.{follow, fresh, over, same_id}
use loadtool.Runner.Run.Legal.Followed.{run-Legal}
use loadtool.Runner.Run.Legal.Started.{ids}
use loadtool.Runner.Run.Numbered.{run_engine-numbered, count_up, all_vus}
use loadtool.Runner.Run.Judged.{run-judged, judged_result, Reports}
use loadtool.Runner.{engine_executor}

-- A script with setup, whose second runtime fails when `broken` is set.
abbrev measured : Measured
measured = record {
  summary = record {
    requests = 200;
    successes = 199;
    failures = 1;
    sent = 200;
    script_errors = 0;
    first_script_error = "";
    checks = [];
    iterations = 100;
    protocols = record { http1 = 200; http2 = 0; other = 0 };
    status_codes = [];
    latency = none;
  };
  dropped = 0;
  families = [];
}

abbrev script_options : ScriptOptions
script_options = record {
  options = record {
    vus = some (pos 2);
    duration = none;
    discard_response_bodies = none;
    no_cookies_reset = none;
    no_connection_reuse = none;
    http_version = none;
    setup_timeout = none;
    teardown_timeout = none;
    scenarios = none;
    stages = none;
  };
  thresholds = ("http_req_failed", "rate<0.01" ∷ []) ∷ [];
  unknown = "ext" ∷ [];
}

-- The world counts the warnings; the second VU starts unless `broken` is set.
abbrev host : Bool → Host
host broken = record {
  World = ℕ;
  Code = ℕ;
  Vm = ℕ;
  Data = ℕ;
  Raw = ℕ;
  Failure = String;
  load = λ name w. (ok 7, w);
  start_modules = λ w. (ok [], w);
  close_modules = λ w. (some "stuck", w);
  run_init = λ prog id exec w.
      if broken && same_id id (pos 2) then (err "init", w) else (ok (pos_part id), w);
  options = λ vm w. (ok vm, w);
  parse_options = λ raw. ok script_options;
  has_default = λ vm. true;
  sort = λ names. names;
  exports = λ code. ok [];
  compile = λ code names. ok code;
  setup = λ vm timeout w. (ok (some 5), w);
  teardown = λ vm ignoring timeout data_ w. (none, w);
  close_vm = λ vm w. (none, w);
  close_idle = λ w. w;
  cancelled = λ w. false;
  load_phase = λ scenarios vms w. (record { elapsed = pos 10_000_000_000; measured = measured }, w);
  families = λ w. [];
  text = λ f. f;
}

-- Nanoseconds are seconds with nine decimals; the limit is a hundredth.
abbrev hundredth : Bytes → ℕ
hundredth s = 10_000_000

abbrev params : (broken : Bool) → Params (host broken) fixed pos_part hundredth
params broken = record {
  config = record {
    script = "load.js";
    vus = pos 0;
    duration = pos 0;
    graceful_stop = pos 5_000_000_000;
    discard_response_bodies = false;
    no_cookies_reset = false;
    no_connection_reuse = false;
    http_version = "";
    setup_timeout = pos 0;
    teardown_timeout = pos 0;
    scenarios = [];
    scenarios_replaced = false;
  };
  overrides = record { vus = none; duration = none };
  getenv = λ name. none;
  lib = record { atoi = λ s. none; parse_duration = λ s. none; trim_space = λ s. s };
  warn = some (λ warning w. suc w);
}

abbrev done :
    (broken : Bool) → Done ℕ (Stop String) Call (TestResult (host broken) fixed pos_part hundredth)
done broken = run (host broken) fixed pos_part hundredth (params broken) 0

-- A run whose second VU fails to start: the first is closed, and teardown runs.
run-broken :
    ((done true).calls
      ≡ load_script true
        ∷ start_modules true
        ∷ lifecycle_init true
        ∷ read_options true
        ∷ prepare_execs true
        ∷ setup true
        ∷ vu_init (pos 1) true
        ∷ vu_init (pos 2) false
        ∷ close_vu (pos 1)
        ∷ teardown true
        ∷ close_lifecycle
        ∷ close_idle
        ∷ close_modules
        ∷ [])
    × ((done true).world ≡ 2)
unfolding run ◌>>>◌ perform value effect deferring configure run_load run_engine start_all
    start_scenarios start_vus close_vus with_execs resolve resolve_vus env_of resolve_duration
    resolve_scenarios summarize settle validate_config parse parse_each parse_exprs parse_expr
    match_expr kind_named validate executor_max_vus engine_executor kind_of max_vus ◌+ℤ◌ add_int64
    scenario_length
run-broken = (refl, refl)

run-Legal_example :
    (follow fresh (done true).calls ≡ some over)
    ⊎ ((str_eq (params true).config.script "" ≡ true) × ((done true).calls ≡ []))
run-Legal_example = run-Legal (host true) fixed pos_part hundredth (params true) 0

abbrev nothing : TestResult (host false) fixed pos_part hundredth
nothing = record {
  config = (params false).config;
  elapsed = pos 0;
  interrupted = false;
  measured = measured;
  thresholds = [];
  teardown_error = "";
}

abbrev value_or : {E A : Type 0} → A → Result E A → A
value_or a (ok b) = b
value_or a (err e) = a

abbrev finished : TestResult (host false) fixed pos_part hundredth
finished = value_or nothing (done false).result

run-finished : (done false).result ≡ ok finished
unfolding run ◌>>>◌ perform value effect deferring configure run_load run_engine start_all
    start_scenarios start_vus close_vus with_execs resolve resolve_vus env_of resolve_duration
    resolve_scenarios summarize settle validate_config parse parse_each parse_exprs parse_expr
    match_expr kind_named validate executor_max_vus engine_executor kind_of max_vus ◌+ℤ◌ add_int64
    scenario_length
run-finished = refl

abbrev name_of : Metric → String
name_of m = "http_req_failed"

run-judged_example :
    (families : List (String × Kind)) × (raw : ℕ) × (opts : ScriptOptions) × (ths : List
      (Threshold fixed pos_part))
    × ((host false).parse_options raw ≡ ok opts)
    × (resolve
          (params false).lib
          (params false).config
          (params false).overrides
          (params false).getenv
          opts.options
        ≡ (finished.config, []))
    × ((lc : ℕ) × (d : Option ℕ) × (prog : Program ℕ ℕ) × (w' : ℕ) × Reports
          (host false)
          fixed
          pos_part
          hundredth
          (params false)
          finished
          lc
          d
          (run_engine (host false) prog finished.config.scenarios w'))
    × ReadsAll fixed pos_part hundredth families opts.thresholds ths
    × (((verdict (judged_result (host false) fixed pos_part hundredth name_of finished)).passed
          ≡ true)
        ↔ ((finished.interrupted ≡ false)
            × (str_eq finished.teardown_error "" ≡ true)
            × All (Holds fixed pos_part finished.measured finished.elapsed) ths))
run-judged_example =
    run-judged (host false) fixed pos_part hundredth (params false) 0 finished name_of run-finished

abbrev up : Scenario
up = record {
  name = "up";
  executor = "ramping-vus";
  exec = "default";
  start_time = pos 0;
  graceful_stop = pos 30_000_000_000;
  vus = pos 0;
  duration = pos 0;
  start_vus = pos 1;
  stages =
      record { duration = pos 60_000_000_000; target = pos 8 }
      ∷ record { duration = pos 2_000_000_000; target = pos 8 }
      ∷ [];
  graceful_ramp_down = pos 30_000_000_000;
  rate = pos 0;
  time_unit = pos 0;
  pre_allocated_vus = pos 0;
}

-- The script's program and its two scenarios, with eight VUs and three.
abbrev program : Program ℕ ℕ
program = loaded 7

abbrev scenarios : List Scenario
scenarios =
    up ∷ record up { name = "flat"; executor = "constant-vus"; vus = pos 3; duration = pos 9 } ∷ []

run_engine-numbered_example :
    (m : ℕ) × (ids (host false) (run_engine (host false) program scenarios 0).vus
      ≡ count_up (pos 1) m)
    × (((m ≡ all_vus (host false) scenarios)
          × ((w' : ℕ) × ((run_engine (host false) program scenarios 0).result
                ≡ ok
                    ((host false).load_phase scenarios
                      (map (vm_of (host false)) (run_engine (host false) program scenarios 0).vus)
                      w').0)))
        ⊎ ((e : StartError String) × ((run_engine (host false) program scenarios 0).result
              ≡ err e)))
run_engine-numbered_example = run_engine-numbered (host false) program scenarios 0

eleven_vus : all_vus (host false) scenarios ≡ 11
unfolding executor_max_vus engine_executor kind_of max_vus engine_stages_max
eleven_vus = refl
