-- ===== src/Thresholds/Tests.antt =====
-- Thresholds at a concrete summary.
use Prim.Native.String.{String}
use loadtool.Prelude.{
  codes, Bytes, length, ◌+◌, ◌*◌, ◌^◌, ◌-◌, if◌then◌else◌, ℕ, ◌≡◌, ◌↔◌, refl, List, [], ◌∷◌, map,
  some, false,
}
use loadtool.Prelude.Int.{ℤ, pos, pos_part}
use loadtool.Prelude.Float.{fixed}
use loadtool.Report.{RunResult}
use loadtool.Thresholds.{
  Metric, Measured, Threshold, http_req_failed, http_req_duration, rate, med, lt, le, p, Kind,
  evaluate,
}
use loadtool.Prelude.Result.{ok}
use loadtool.Thresholds.Pattern.{Match, match_expr, is_digit}
use loadtool.Thresholds.Pattern.Grammar.{Spelled}
use loadtool.Thresholds.Pattern.Matched.{match_expr_iff}
use loadtool.Thresholds.Parse.{parse, parse_each, parse_exprs, parse_expr, kind_named}
use loadtool.Thresholds.Parse.Exact.{ReadsAll, parse_iff}
use loadtool.Thresholds.Evaluated.{reported}

-- Nanoseconds are seconds with nine decimals.
abbrev in_seconds : ℤ → ℕ
in_seconds = pos_part

-- 200 requests, of which one failed.
abbrev measured : Measured
measured = record {
  summary = record {
    requests = 200;
    successes = 199;
    failures = 1;
    sent = 200;
    script_errors = 0;
    first_script_error = "";
    checks = [];
    iterations = 100;
    protocols = record { http1 = 200; http2 = 0; other = 0 };
    status_codes = record { code = 200; responses = 200 } ∷ [];
    latency = some (record {
      counts = [];
      n = 200;
      sum_ns = 4_000_000_000;
      min_ns = 5_000_000;
      max_ns = 90_000_000;
    });
  };
  dropped = 0;
  families = [];
}

-- rate<0.01 and med<500
abbrev thresholds : List (Threshold fixed in_seconds)
thresholds =
    record {
      metric = http_req_failed;
      text = "rate<0.01";
      aggregate = rate;
      percent = 0;
      op = lt;
      limit = 10_000_000;
    }
    ∷ record {
      metric = http_req_duration;
      text = "med<500";
      aggregate = med;
      percent = 0;
      op = lt;
      limit = 500_000_000_000;
    }
    ∷ []

abbrev name_of : Metric → String
name_of http_req_failed = "http_req_failed"
name_of _ = "http_req_duration"

abbrev outcome : RunResult
outcome = record {
  interrupted = false;
  teardown_error = "";
  thresholds =
      map (reported fixed in_seconds name_of)
        (evaluate fixed in_seconds thresholds measured (pos 5_000_000_000));
}

abbrev grpc_kinds : List (String × Kind)
grpc_kinds = ("grpc_req_duration", Kind.trend) ∷ []

-- Two metrics with three expressions.
abbrev definitions : List (String × List String)
definitions =
    ("grpc_req_duration", "p( 99.5 )<=250" ∷ [])
    ∷ ("http_req_failed", "rate<0.01" ∷ " rate < 1" ∷ [])
    ∷ []

-- The digits before the point.
abbrev whole_part : Bytes → ℕ
whole_part s = digits_value 0 s
  where
    digits_value : ℕ → Bytes → ℕ
    digits_value n [] = n * 10 ^ 9
    digits_value n (c ∷ s) =
        let rest = digits_value (n * 10 + (c - b'0')) s in if is_digit c then rest else n * 10 ^ 9

abbrev parsed : List (Threshold fixed in_seconds)
parsed = (parse_each fixed in_seconds whole_part grpc_kinds definitions).0

parse_iff_example :
    (parse fixed in_seconds whole_part grpc_kinds definitions ≡ ok parsed)
    ↔ ReadsAll fixed in_seconds whole_part grpc_kinds definitions parsed
parse_iff_example = parse_iff fixed in_seconds whole_part grpc_kinds definitions parsed

definitions-parsed : parse fixed in_seconds whole_part grpc_kinds definitions ≡ ok parsed
unfolding parse parse_each parse_exprs parse_expr match_expr kind_named
definitions-parsed = refl

-- An unknown metric, a metric that a tag selects, a percentile that is too large and a text that
-- is no expression: four problems beside one threshold.
abbrev faulty : List (String × List String)
faulty =
    ("checks", "rate>0.9" ∷ "p(101)<5" ∷ "rate" ∷ [])
    ∷ ("latency", "avg<5" ∷ "max<9" ∷ [])
    ∷ ("latency{url:x}", "avg<5" ∷ [])
    ∷ []

faulty-parsed :
    (length (parse_each fixed in_seconds whole_part grpc_kinds faulty).0 ≡ 1)
    × (length (parse_each fixed in_seconds whole_part grpc_kinds faulty).1 ≡ 4)
unfolding parse_each parse_exprs parse_expr match_expr kind_named
faulty-parsed = (refl, refl)

abbrev p_match : Match
p_match = record { aggregate = p; percent = codes "99.5"; op = le; limit = codes "250" }

match_expr_iff_example :
    (match_expr (codes "p( 99.5 )<=250") ≡ some p_match) ↔ Spelled p_match (codes "p( 99.5 )<=250")
match_expr_iff_example = match_expr_iff (codes "p( 99.5 )<=250") p_match
