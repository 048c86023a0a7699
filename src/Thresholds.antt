-- ===== src/Thresholds.antt =====
-- Evaluation of parsed thresholds against a run's metrics (internal/thresholds/thresholds.go).
-- Floating point is the parameter `fl`, and time.Duration's Seconds the parameter `seconds`. The
-- texts of aggregates, operators and built-in metrics are constructors, as Parse has accepted them.
pub mod Evaluated
pub mod Pattern
pub mod Parse
mod Tests
use Prim.Native.String.{String}
use text.Mathlib.Text.{◌==◌ as str_eq}
use loadtool.Prelude.{
  ℕ, ◌+◌, ◌/◌, List, [], ◌∷◌, map, Option, none, some, Bool, true, false, ◌||◌, not, ltb, ◌==◌,
  if◌then◌else◌, sum,
}
use loadtool.Prelude.Int.{ℤ, pos, leb_ℤ}
use loadtool.Prelude.Float.{Float}
use loadtool.Metrics.Histogram.{Combined, percentile}
use loadtool.Metrics.Recorder.Merge.{Summary, CheckResult}

pub data Measure : Type 0 where
  milliseconds fraction per_second count : Measure

pub data Aggregate : Type 0 where
  avg min max med p count rate : Aggregate

pub data Op : Type 0 where
  lt le gt ge eq ne : Op

-- metrics.Kind of a protocol metric family.
pub data Kind : Type 0 where
  trend counter rate : Kind

-- The metric that a threshold names: a built-in one, or a family with its kind.
pub data Metric : Type 0 where
  http_req_duration http_req_failed checks http_reqs iterations dropped_iterations : Metric
  family : Kind → String → Metric

-- metrics.FamilySummary, in the fields that are read here; `latency` gives the durations.
pub record FamilySummary : Type 0 where
  pub name : String
  pub total : ℕ
  pub trues : ℕ
  pub latency : Option Combined

-- metrics.Summary with what the engine and the runner set.
pub record Measured : Type 0 where
  pub summary : Summary
  pub dropped : ℕ
  pub families : List FamilySummary

-- Summary.Family; the zero value has no samples.
abbrev pub no_family : FamilySummary
no_family = record { name = ""; total = 0; trues = 0; latency = none }

unfoldable pub find_family : List FamilySummary → String → FamilySummary
find_family [] name = no_family
find_family (f ∷ fs) name = let rest = find_family fs name in if str_eq f.name name then f else rest

abbrev pub passes_total : List CheckResult → ℕ
passes_total cs = sum (map (λ (c : CheckResult). c.passes) cs)

abbrev pub fails_total : List CheckResult → ℕ
fails_total cs = sum (map (λ (c : CheckResult). c.fails) cs)

module _ (fl : Float) (seconds : ℤ → fl.F) where
  open fl use {F, of_nat, decimal, fmul, fdiv, fsub, fabs, flt, fle, feq}

  -- A parsed expression; `p` is the N of p(N).
  pub record Threshold : Type 0 where
    pub metric : Metric
    pub text : String
    pub aggregate : Aggregate
    pub percent : F
    pub op : Op
    pub limit : F

  pub record Result : Type 0 where
    pub threshold : Threshold
    pub observed : F
    pub measure : Measure
    pub no_data : Bool
    pub passed : Bool
    pub approximate : Bool

  -- Percentile of a summary: 0 if there is no histogram, or for a percentage out of range.
  abbrev pub percentile_of : Combined → F → ℕ
  percentile_of c q = if fle q (of_nat 0) || flt (of_nat 100) q then 0 else percentile fl c q

  abbrev pub duration_of : Aggregate → F → Combined → ℕ
  duration_of avg q c = c.sum_ns / c.n
  duration_of min q c = c.min_ns
  duration_of max q c = c.max_ns
  duration_of med q c = percentile_of c (of_nat 50)
  duration_of p q c = percentile_of c q
  duration_of _ q c = 0

  -- float64(d) / float64(time.Millisecond)
  abbrev pub in_milliseconds : ℕ → F
  in_milliseconds d = fdiv (of_nat d) (of_nat 1_000_000)

  -- A distribution of `n` samples.
  unfoldable pub trend_value : Aggregate → F → ℕ → Option Combined → Option F
  trend_value agg q n none = if n == 0 then none else some (in_milliseconds 0)
  trend_value agg q n (some c) =
      if n == 0 then none else some (in_milliseconds (duration_of agg q c))

  -- `k` of `n`, if there is any.
  unfoldable pub share_value : ℕ → ℕ → Option F
  share_value k n = if n == 0 then none else some (fdiv (of_nat k) (of_nat n))

  -- counter
  unfoldable pub counter_value : Aggregate → ℕ → ℤ → Option F
  counter_value count n elapsed = some (of_nat n)
  counter_value _ n elapsed =
      if leb_ℤ elapsed (pos 0) then none else some (fdiv (of_nat n) (seconds elapsed))

  unfoldable pub family_value : Kind → Aggregate → F → FamilySummary → ℤ → Option F
  family_value trend agg q f elapsed = trend_value agg q f.total f.latency
  family_value rate agg q f elapsed = share_value f.trues f.total
  family_value counter agg q f elapsed = counter_value agg f.total elapsed

  -- The `value` of a metric; none if it has no data.
  unfoldable pub metric_value : Metric → Aggregate → F → Measured → ℤ → Option F
  metric_value http_req_duration agg q m elapsed =
      trend_value agg q m.summary.sent m.summary.latency
  metric_value http_req_failed agg q m elapsed = share_value m.summary.failures m.summary.requests
  metric_value checks agg q m elapsed =
      share_value (passes_total m.summary.checks)
        (passes_total m.summary.checks + fails_total m.summary.checks)
  metric_value http_reqs agg q m elapsed = counter_value agg m.summary.requests elapsed
  metric_value iterations agg q m elapsed = counter_value agg m.summary.iterations elapsed
  metric_value dropped_iterations agg q m elapsed = counter_value agg m.dropped elapsed
  metric_value (family k name) agg q m elapsed =
      family_value k agg q (find_family m.families name) elapsed

  abbrev pub counter_measure : Aggregate → Measure
  counter_measure count = Measure.count
  counter_measure _ = per_second

  abbrev pub metric_measure : Metric → Aggregate → Measure
  metric_measure http_req_duration agg = milliseconds
  metric_measure http_req_failed agg = fraction
  metric_measure checks agg = fraction
  metric_measure (family trend name) agg = milliseconds
  metric_measure (family rate name) agg = fraction
  metric_measure _ agg = counter_measure agg

  unfoldable pub compare_with : F → Op → F → Bool
  compare_with v lt limit = flt v limit
  compare_with v le limit = fle v limit
  compare_with v gt limit = flt limit v
  compare_with v ge limit = fle limit v
  compare_with v eq limit = feq v limit
  compare_with v ne limit = not (feq v limit)

  -- The percentile is within the histogram's error, 0.0078, of the limit.
  abbrev pub is_near : Aggregate → F → F → Bool
  is_near p v limit = fle (fabs (fsub v limit)) (fmul (decimal 78 4) (fabs limit))
  is_near med v limit = fle (fabs (fsub v limit)) (fmul (decimal 78 4) (fabs limit))
  is_near _ v limit = false

  abbrev pub result_of : Threshold → Option F → Result
  result_of t none = record {
    threshold = t;
    observed = of_nat 0;
    measure = metric_measure t.metric t.aggregate;
    no_data = true;
    passed = false;
    approximate = false;
  }
  result_of t (some v) = record {
    threshold = t;
    observed = v;
    measure = metric_measure t.metric t.aggregate;
    no_data = false;
    passed = compare_with v t.op t.limit;
    approximate = is_near t.aggregate v t.limit;
  }

  unfoldable pub evaluate : List Threshold → Measured → ℤ → List Result
  evaluate [] m elapsed = []
  evaluate (t ∷ ts) m elapsed =
      result_of t (metric_value t.metric t.aggregate t.percent m elapsed) ∷ evaluate ts m elapsed

  unfoldable pub failed : List Result → Bool
  failed [] = false
  failed (r ∷ rs) = not r.passed || failed rs
