-- ===== src/Thresholds/Evaluated.antt =====
-- When a run's thresholds pass, and what the verdict makes of them.
use Prim.Native.String.{String}
use text.Mathlib.Text.{◌==◌ as str_eq}
use loadtool.Prelude.{
  ◌≡◌, ◌↔◌, refl, ap, ◌∙◌, List, [], ◌∷◌, map, Option, none, some, true, false, not, arith, All,
}
use loadtool.Prelude.Int.{ℤ}
use loadtool.Prelude.Float.{Float}
use loadtool.Report.{RunResult, verdict}
use loadtool.Report as Report
use loadtool.Report.Verdict.{all_passed, verdict-exact}
use loadtool.Thresholds.{
  Metric, Measured, Threshold, Result, metric_value, compare_with, result_of, evaluate, failed,
}

module _ (fl : Float) (seconds : ℤ → fl.F) where
  open fl use {F}

  -- The metric has data, and its value meets the limit.
  abbrev pub Holds : Measured → ℤ → Threshold fl seconds → Type 0
  Holds m elapsed t =
      (v : F) × (metric_value fl seconds t.metric t.aggregate t.percent m elapsed ≡ some v)
      × (compare_with fl seconds v t.op t.limit ≡ true)

  result_of-passed :
      (t : Threshold fl seconds) (o : Option F)
      → ((result_of fl seconds t o).passed ≡ true)
        ↔ ((v : F) × (o ≡ some v) × (compare_with fl seconds v t.op t.limit ≡ true))
  result_of-passed t none = (λ h. absurd (cc h), λ (v, e, c). absurd (cc e))
  result_of-passed t (some v) = (λ h. (v, refl, h), λ (w, e, c). grind arith)

  -- No threshold failed exactly if each has data and meets its limit: a metric without data fails.
  pub failed-evaluate :
      (ts : List (Threshold fl seconds)) (m : Measured) (elapsed : ℤ)
      → (failed fl seconds (evaluate fl seconds ts m elapsed) ≡ false) ↔ All (Holds m elapsed) ts
  unfolding failed evaluate
  failed-evaluate [] m elapsed = (λ h. tt, λ h. refl)
  failed-evaluate (t ∷ ts) m elapsed =
      let one =
        result_of-passed t (metric_value fl seconds t.metric t.aggregate t.percent m elapsed) in
      let rest = failed-evaluate ts m elapsed in
      (
        λ h. (one.0 (ground arith), rest.0 (ground arith)),
        λ (a, b). let p = one.1 a in let q = rest.1 b in ground arith,
      )

  -- The fields that Verdict reads, with the text of the metric's name.
  abbrev pub reported : (Metric → String) → Result fl seconds → Report.Threshold
  reported name r = record {
    metric = name r.threshold.metric;
    expr = r.threshold.text;
    passed = r.passed;
  }

  pub all_passed-reported :
      (name : Metric → String) (rs : List (Result fl seconds))
      → all_passed (map (reported name) rs) ≡ not (failed fl seconds rs)
  unfolding failed
  all_passed-reported name [] = refl
  all_passed-reported name (r ∷ rs) = ground (arith, all_passed-reported name rs)

  -- A run that was not interrupted, and whose teardown did not fail, passes exactly if each of its
  -- thresholds has data and meets its limit.
  pub verdict-evaluate :
      (ts : List (Threshold fl seconds)) (m : Measured) (elapsed : ℤ) (name : Metric → String)
      (r : RunResult)
      → r.interrupted ≡ false
      → r.teardown_error ≡ ""
      → r.thresholds ≡ map (reported name) (evaluate fl seconds ts m elapsed)
      → ((verdict r).passed ≡ true) ↔ All (Holds m elapsed) ts
  verdict-evaluate ts m elapsed name r i d e =
      let iff = failed-evaluate ts m elapsed in
      let x = verdict-exact r in
      let u : str_eq r.teardown_error "" ≡ true = ap (λ s. str_eq s "") d in
      let all = ap all_passed e ∙ all_passed-reported name (evaluate fl seconds ts m elapsed) in
      let p : (verdict r).passed ≡ not (failed fl seconds (evaluate fl seconds ts m elapsed)) =
        ground (arith, x.2, i, u, all) in
      (λ h. iff.0 (ground arith), λ h. let f = iff.1 h in ground arith)
