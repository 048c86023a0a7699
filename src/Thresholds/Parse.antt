-- ===== src/Thresholds/Parse.antt =====
-- Parse of internal/thresholds/thresholds.go. strconv.ParseFloat on a decimal is the parameter
-- `parse_float`; an error is a constructor in place of its text. The definitions come sorted by
-- name, as the loop takes them; the families' kinds are a list in the order given.
pub mod Exact
pub mod Reported
use Prim.Native.String.{String}
use text.Mathlib.Text.{◌==◌ as str_eq}
use loadtool.Prelude.{
  ◌+◌, List, [], ◌∷◌, ◌++◌, Option, none, some, Bool, true, false, ◌||◌, not, if◌then◌else◌, Bytes,
  codes, bytes_eq, contains_any,
}
use loadtool.Prelude.Int.{ℤ}
use loadtool.Prelude.Float.{Float}
use loadtool.Prelude.Result.{Result, err, ok, refuse, ◌>>◌, ◌>>=◌, some_or}
use loadtool.Thresholds.{
  Kind, trend, counter, Metric, http_req_duration, http_req_failed, checks, http_reqs, iterations,
  dropped_iterations, family, Aggregate, avg, min, max, med, p, count, rate, Threshold,
}
use loadtool.Thresholds.Pattern.{Match, match_expr}
use loadtool.Thresholds.Pattern.Grammar.{aggregate_text}

pub data Problem : Type 0 where
  unknown_metric sub_metric : String → Problem
  no_expression : String → String → Problem
  bad_percentile : String → String → Bytes → Problem
  unsupported : String → String → Aggregate → Problem

-- The keys of `known`.
abbrev pub known : String → Option Metric
known name =
    if str_eq name "http_req_duration"
    then some http_req_duration
    else if str_eq name "http_req_failed"
    then some http_req_failed
    else if str_eq name "checks"
    then some checks
    else if str_eq name "http_reqs"
    then some http_reqs
    else if str_eq name "iterations"
    then some iterations
    else if str_eq name "dropped_iterations"
    then some dropped_iterations
    else none

-- The field `aggregates` of a metric.
abbrev pub aggregates_of : Metric → List Aggregate
aggregates_of http_req_duration = avg ∷ min ∷ max ∷ med ∷ p ∷ []
aggregates_of http_req_failed = rate ∷ []
aggregates_of checks = rate ∷ []
aggregates_of (family trend name) = avg ∷ min ∷ max ∷ med ∷ p ∷ []
aggregates_of (family Kind.rate name) = rate ∷ []
aggregates_of _ = count ∷ rate ∷ []

-- slices.Contains, on the aggregates' texts.
abbrev pub supports : List Aggregate → Aggregate → Bool
supports [] a = false
supports (b ∷ bs) a = bytes_eq (aggregate_text b) (aggregate_text a) || supports bs a

-- kinds[name]: the last family of the name counts.
abbrev pub or_here : Option Kind → Bool → Kind → Option Kind
or_here (some k) here k' = some k
or_here none true k' = some k'
or_here none false k' = none

unfoldable pub kind_named : List (String × Kind) → String → Option Kind
kind_named [] name = none
kind_named (f ∷ fs) name = or_here (kind_named fs name) (str_eq f.0 name) f.1

-- The metric whose aggregates an expression is held against.
abbrev pub checked_as : Option Metric → Option Kind → String → Option Metric
checked_as (some m) kind name = some m
checked_as none (some k) name = some (family k name)
checked_as none none name = none

-- Threshold.metric
abbrev pub evaluated_as : Metric → Option Kind → String → Metric
evaluated_as m (some k) name = family k name
evaluated_as m none name = m

abbrev pub unknown : String → Problem
unknown name =
    if contains_any (codes "{") (codes name) then sub_metric name else unknown_metric name

module _ (fl : Float) (seconds : ℤ → fl.F) (parse_float : Bytes → fl.F) where
  open fl use {F, of_nat, flt, fle}

  abbrev pub percent_of : Aggregate → Bytes → F
  percent_of p n = parse_float n
  percent_of a n = of_nat 0

  abbrev pub is_out_of_range : Aggregate → F → Bool
  is_out_of_range p q = fle q (of_nat 0) || flt (of_nat 100) q
  is_out_of_range a q = false

  abbrev pub threshold_of : Metric → String → Match → Threshold fl seconds
  threshold_of m text g = record {
    metric = m;
    text = text;
    aggregate = g.aggregate;
    percent = percent_of g.aggregate g.percent;
    op = g.op;
    limit = parse_float g.limit;
  }

  abbrev pub parse_match :
      String → Metric → Metric → String → Match → Result Problem (Threshold fl seconds)
  parse_match name m held text g =
      refuse (is_out_of_range g.aggregate (percent_of g.aggregate g.percent))
        (bad_percentile name text g.percent)
      >> refuse (not (supports (aggregates_of m) g.aggregate)) (unsupported name text g.aggregate)
      >> ok (threshold_of held text g)

  -- parseExpr, with the kind that Parse sets.
  unfoldable pub parse_expr :
      String → Metric → Metric → String → Result Problem (Threshold fl seconds)
  parse_expr name m held text =
      some_or (no_expression name text) (match_expr (codes text)) >>= parse_match name m held text

  abbrev pub Parsed : Type 0
  Parsed = List (Threshold fl seconds) × List Problem

  abbrev pub add_parsed : Result Problem (Threshold fl seconds) → Parsed → Parsed
  add_parsed (ok t) (out, errs) = (t ∷ out, errs)
  add_parsed (err why) (out, errs) = (out, why ∷ errs)

  -- The inner loop, before what follows it.
  unfoldable pub parse_exprs : String → Metric → Metric → List String → Parsed → Parsed
  parse_exprs name m held [] after = after
  parse_exprs name m held (text ∷ texts) after =
      add_parsed (parse_expr name m held text) (parse_exprs name m held texts after)

  abbrev pub parse_metric : String → Option Kind → Option Metric → List String → Parsed → Parsed
  parse_metric name kind (some m) texts after =
      parse_exprs name m (evaluated_as m kind name) texts after
  parse_metric name kind none texts (out, errs) = (out, unknown name ∷ errs)

  unfoldable pub parse_each : List (String × Kind) → List (String × List String) → Parsed
  parse_each families [] = ([], [])
  parse_each families (d ∷ ds) =
      let kind = kind_named families d.0 in
      parse_metric d.0 kind (checked_as (known d.0) kind d.0) d.1 (parse_each families ds)

  abbrev pub without_errors : Parsed → Result (List Problem) (List (Threshold fl seconds))
  without_errors (out, []) = ok out
  without_errors (out, why ∷ errs) = err (why ∷ errs)

  unfoldable pub parse :
      List (String × Kind)
      → List (String × List String)
      → Result (List Problem) (List (Threshold fl seconds))
  parse families defs = without_errors (parse_each families defs)
