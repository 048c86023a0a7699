-- ===== src/Report/Tests.antt =====
-- A verdict at a concrete result.
use loadtool.Prelude.{◌≡◌, refl, [], ◌∷◌, ◌++◌, true, false, ◌&&◌, not, if◌then◌else◌}
use loadtool.Report.{
  RunResult, verdict, judge_thresholds, exit_failed, exit_passed, exit_thresholds_failed,
}
use loadtool.Report.Verdict.{broken, breakages, failures, all_passed, verdict-exact}

-- One of two thresholds failed.
abbrev slow_run : RunResult
slow_run = record {
  interrupted = false;
  teardown_error = "";
  thresholds =
      record { metric = "http_req_failed"; expr = "rate<0.01"; passed = true }
      ∷ record { metric = "http_req_duration"; expr = "p(95)<500"; passed = false }
      ∷ [];
}

slow_run_code : (verdict slow_run).exit_code ≡ 99
unfolding verdict judge_thresholds
slow_run_code = refl

verdict-exact_example :
    ((verdict slow_run).reasons ≡ breakages slow_run ++ failures slow_run.thresholds)
    × ((verdict slow_run).exit_code ≡ (
        if broken slow_run
        then exit_failed
        else if all_passed slow_run.thresholds
        then exit_passed
        else exit_thresholds_failed))
    × ((verdict slow_run).passed ≡ (not (broken slow_run) && all_passed slow_run.thresholds))
verdict-exact_example = verdict-exact slow_run
