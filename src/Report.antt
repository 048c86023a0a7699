-- ===== src/Report.antt =====
-- How a run ends: Verdict (internal/report/outcome.go), the one rule behind the exit code and the
-- outcome in the summary. A result is the three fields that Verdict reads.
pub mod Verdict
mod Tests
use Prim.Native.String.{String, ◌++◌ as str_append}
use text.Mathlib.Text.{◌==◌ as str_eq}
use loadtool.Prelude.{ℕ, List, [], ◌∷◌, ◌++◌, Bool, true, false, not, ◌==◌, if◌then◌else◌}

abbrev pub exit_passed : ℕ
exit_passed = 0

abbrev pub exit_failed : ℕ
exit_failed = 1

abbrev pub exit_thresholds_failed : ℕ
exit_thresholds_failed = 99

-- A threshold's result, in the fields of thresholds.Result that are read here.
pub record Threshold : Type 0 where
  pub metric : String
  pub expr : String
  pub passed : Bool

pub record RunResult : Type 0 where
  pub interrupted : Bool
  pub teardown_error : String
  pub thresholds : List Threshold

pub record Outcome : Type 0 where
  pub passed : Bool
  pub exit_code : ℕ
  pub reasons : List String

-- The variables `reasons` and `code`.
abbrev pub Judged : Type 0
Judged = List String × ℕ

abbrev pub judge_interrupted : Bool → Judged → Judged
judge_interrupted b (reasons, code) =
    if b then (reasons ++ ("interrupted" ∷ []), exit_failed) else (reasons, code)

abbrev pub judge_teardown : String → Judged → Judged
judge_teardown e (reasons, code) =
    if str_eq e "" then (reasons, code) else (reasons ++ (e ∷ []), exit_failed)

abbrev pub reason_of : Threshold → String
reason_of t = str_append "threshold failed: " (str_append t.metric (str_append " " t.expr))

abbrev pub judge_threshold : Threshold → Judged → Judged
judge_threshold t (reasons, code) = if t.passed then (reasons, code) else (
  reasons ++ (reason_of t ∷ []),
  if code == exit_passed then exit_thresholds_failed else code,
)

unfoldable pub judge_thresholds : List Threshold → Judged → Judged
judge_thresholds [] j = j
judge_thresholds (t ∷ ts) j = judge_thresholds ts (judge_threshold t j)

abbrev pub outcome_of : Judged → Outcome
outcome_of (reasons, code) = record {
  passed = code == exit_passed;
  exit_code = code;
  reasons = reasons;
}

unfoldable pub verdict : RunResult → Outcome
verdict r = outcome_of (
    judge_thresholds r.thresholds
      (judge_teardown r.teardown_error (judge_interrupted r.interrupted ([], exit_passed))))
