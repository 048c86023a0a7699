-- ===== src/Metrics/Recorder/Merge.antt =====
-- Merge (internal/metrics/metrics.go) and mergeChecks (checks.go). The counts of requests are ints
-- kept as their 64-bit words.
use Prim.Native.String.{String}
use text.Mathlib.Text.{◌==◌ as str_eq}
use loadtool.Prelude.{
  ℕ, zero, suc, ◌+◌, List, [], ◌∷◌, ◌++◌, map, Option, none, some, Bool, false, ◌||◌, ltb, ◌==◌,
  if◌then◌else◌, get_or, sum, add64, sub64,
}
use loadtool.Metrics.Histogram.{Combined, combine}
use loadtool.Metrics.Recorder.{Shard, new_shard, Protocols, CheckCount, Recorder, World, max_status}

pub record CheckResult : Type 0 where
  pub name : String
  pub passes : ℕ
  pub fails : ℕ
  pub first_error : String

pub record StatusCount : Type 0 where
  pub code : ℕ
  pub responses : ℕ

-- `latency` is the merged histogram, from which the code reads Min, Mean, Max and the percentiles.
pub record Summary : Type 0 where
  pub requests : ℕ
  pub successes : ℕ
  pub failures : ℕ
  pub sent : ℕ
  pub script_errors : ℕ
  pub first_script_error : String
  pub checks : List CheckResult
  pub iterations : ℕ
  pub protocols : Protocols
  pub status_codes : List StatusCount
  pub latency : Option Combined

abbrev pub contains : List ℕ → ℕ → Bool
contains [] a = false
contains (b ∷ bs) a = (b == a) || contains bs a

-- The map `seen`, in the order in which its keys are added.
abbrev pub add_seen : List ℕ → ℕ → List ℕ
add_seen seen a = if contains seen a then seen else seen ++ (a ∷ [])

unfoldable pub seen_shards : List ℕ → List Recorder → List ℕ
seen_shards seen [] = seen
seen_shards seen (r ∷ rs) = seen_shards (add_seen seen r.shard) rs

abbrev pub shard_at : List Shard → ℕ → Shard
shard_at shards a = get_or shards a new_shard

unfoldable pub first_message : List Recorder → String
first_message [] = ""
first_message (r ∷ rs) =
    let rest = first_message rs in
    if str_eq r.first_script_error "" then rest else r.first_script_error

-- Index `c` of mergeStatuses' totals.
abbrev pub status_total : List Shard → ℕ → ℕ
status_total [] c = 0
status_total (sh ∷ shs) c = add64 (get_or sh.statuses c 0) (status_total shs c)

-- The statuses from `c` on, `n` of them, that were counted.
unfoldable pub statuses_from : ℕ → ℕ → List Shard → List StatusCount
statuses_from c zero shs = []
statuses_from c (suc n) shs =
    let total = status_total shs c in
    let rest = statuses_from (suc c) n shs in
    if ltb 0 total then record { code = c; responses = total } ∷ rest else rest

abbrev pub add_check : CheckResult → CheckCount → CheckResult
add_check out c = record out {
  passes = out.passes + c.passes;
  fails = out.fails + c.fails;
  first_error = if str_eq out.first_error "" then c.first_error else out.first_error;
}

-- The loop over one recorder's checks: index i of the table is position i of the results.
unfoldable pub add_checks : List CheckResult → List CheckCount → List CheckResult
add_checks out [] = out
add_checks [] (c ∷ cs) = []
add_checks (o ∷ os) (c ∷ cs) = add_check o c ∷ add_checks os cs

unfoldable pub merge_checks : List CheckResult → List Recorder → List CheckResult
merge_checks out [] = out
merge_checks out (r ∷ rs) = merge_checks (add_checks out r.checks) rs

abbrev pub no_results : String → CheckResult
no_results name = record { name = name; passes = 0; fails = 0; first_error = "" }

unfoldable pub merge : World → Summary
merge w =
    let seen = seen_shards [] w.recorders in
    let oks = map (λ a. (shard_at w.shards a).ok) seen in
    let faileds = map (λ a. (shard_at w.shards a).failed) seen in
    let ok = combine oks in
    let all = combine (oks ++ faileds) in
    let failures = add64 (sum (map (λ r. r.unsent) w.recorders)) (sub64 all.n ok.n) in
    record {
      requests = add64 ok.n failures;
      successes = ok.n;
      failures = failures;
      sent = all.n;
      script_errors = sum (map (λ r. r.script_errors) w.recorders);
      first_script_error = first_message w.recorders;
      checks = merge_checks (map no_results w.names) w.recorders;
      iterations = sum (map (λ r. r.iterations) w.recorders);
      protocols = record {
        http1 = sum (map (λ r. r.protocols.http1) w.recorders);
        http2 = sum (map (λ r. r.protocols.http2) w.recorders);
        other = sum (map (λ r. r.protocols.other) w.recorders);
      };
      status_codes = statuses_from 0 (max_status + 1) (map (shard_at w.shards) seen);
      latency = if all.n == 0 then none else some all;
    }
