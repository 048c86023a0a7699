-- ===== src/Metrics/Tests.antt =====
-- Runs of the metrics component, and its theorems at concrete inputs.
use loadtool.Prelude.{true, false, refl, ℕ, ◌≡◌, List, [], ◌∷◌, arith, map, ◌*◌, ◌≤◌}
use loadtool.Prelude.Int.{ℤ, pos, negsuc}
use loadtool.Prelude.Float.{fixed}
use loadtool.Metrics.Bucket.{bucket_index, len64, len_rounds, bucket_mid, num_buckets}
use loadtool.Prelude.{codes, get_elem?, some}
use loadtool.Prelude.Result.{ok, err}
use loadtool.Metrics.Families.{
  Def, Families, counter, rate, new_family, new_families, declare, problem_of, find_id,
  is_family_name, declared_twice,
}
use loadtool.Metrics.Families.Samples.{Call, add, calls, call, summarize, FamilySummary}
use loadtool.Metrics.Families.Samples.Summarized.{summarize-Summarizes}
use loadtool.Prelude.{replicate, word, ◌%◌, add64}
use loadtool.Metrics.Bucket.Accuracy.{mid-accurate, bucket_index-mid}
use loadtool.Metrics.Histogram.{combine, rank_of, percentile}
use loadtool.Metrics.Histogram.Tallies.{Tallies, recorded}
use loadtool.Metrics.Histogram.Merge.{latencies, combine-Tallies}
use loadtool.Metrics.Histogram.Percentile.{Estimates, percentile-Estimates}
use loadtool.Metrics.Recorder.Merge.{merge}
use loadtool.Metrics.Recorder.Accounts.{Event, sent, unsent, iteration, check, world_of}
use loadtool.Metrics.Recorder.Totals.{Accounts, merge-Accounts}
use loadtool.Metrics.Sampler.{Snapshot, Sampler}

-- Two histories, one with a duration below 0.
abbrev histories : List (List ℤ)
histories = (pos 1_500_000 ∷ pos 900 ∷ negsuc 4 ∷ []) ∷ (pos 2_000_000 ∷ []) ∷ []

-- 50, in the fixed-point numbers
abbrev fifty : ℕ
fifty = 50_000_000_000

percentile-Estimates_example :
    Estimates
      (latencies histories)
      (rank_of fixed fifty 4)
      (percentile fixed (combine (map recorded histories)) fifty)
unfolding rank_of
percentile-Estimates_example =
    percentile-Estimates fixed fifty histories (omega arith) (omega arith) (omega arith)

combine-Tallies_example : Tallies (combine (map recorded histories)) (latencies histories)
combine-Tallies_example = combine-Tallies histories

mid-accurate_example :
    (128 * bucket_mid (bucket_index 1_500_000) ≤ 129 * 1_500_000)
    × (127 * 1_500_000 ≤ 128 * bucket_mid (bucket_index 1_500_000))
mid-accurate_example = mid-accurate 1_500_000 (omega arith)

bucket_index-mid_example : bucket_index (bucket_mid 1000) ≡ 1000
unfolding bucket_index num_buckets len64 len_rounds
bucket_index-mid_example = bucket_index-mid 1000 (omega arith)

-- Two VUs: two requests, one never sent, and an iteration with a failed check.
abbrev events : List Event
events =
    iteration 0
    ∷ check 0 "status is 200" false ""
    ∷ sent 1 (pos 3_000) true
    ∷ unsent 1
    ∷ sent 0 (pos 2_000) false
    ∷ []

merge-Accounts_example : Accounts events (merge (world_of 2 events))
merge-Accounts_example =
    merge-Accounts 2 events (omega arith) (omega arith)
      (omega arith, (omega arith, (omega arith, (omega arith, (omega arith, tt)))))

-- Two snapshots of a sampler over three buckets.
abbrev snapshots : List Snapshot
snapshots =
    record { counts = 1 ∷ 0 ∷ 2 ∷ []; failed = 1; sum_ns = 9 }
    ∷ record { counts = 1 ∷ 4 ∷ 2 ∷ []; failed = 2; sum_ns = 30 }
    ∷ []

abbrev at_start : Sampler
at_start = record { prev = 0 ∷ 0 ∷ 0 ∷ []; prev_failed = 0; prev_sum = 0 }

abbrev pub ws_defs : List Def
ws_defs =
    record { name = codes "ws_sessions"; kind = counter }
    ∷ record { name = codes "ws_failed"; kind = rate }
    ∷ []

abbrev pub ws_families : Families
ws_families = record {
  fams = map new_family ws_defs;
  ids = (codes "ws_sessions", 0) ∷ (codes "ws_failed", 1) ∷ [];
}

ws_accepted : new_families ws_defs ≡ ok ws_families
unfolding new_families declare problem_of find_id is_family_name
ws_accepted = refl

twice :
    new_families
      (record { name = codes "a_b"; kind = rate } ∷ record { name = codes "a_b"; kind = rate } ∷ [])
    ≡ err (declared_twice (codes "a_b") ∷ [])
unfolding new_families declare problem_of find_id is_family_name
twice = refl

-- Two recorders: three sessions, of which the last failed.
abbrev pub ws_calls : List (ℕ × Call)
ws_calls =
    (0, add 0 1)
    ∷ (5, add 0 2)
    ∷ (0, Call.rate 1 false)
    ∷ (5, Call.rate 1 false)
    ∷ (5, Call.rate 1 true)
    ∷ []

abbrev pub ws_slots : ℕ → ℕ → List ℕ
ws_slots first sixth = first ∷ 0 ∷ 0 ∷ 0 ∷ 0 ∷ sixth ∷ replicate 10 0

abbrev pub ws_last : Families
ws_last = record ws_families {
  fams =
      record {
        def = record { name = codes "ws_sessions"; kind = counter };
        trend = [];
        counts = ws_slots 1 2;
        trues = [];
      }
      ∷ record {
        def = record { name = codes "ws_failed"; kind = rate };
        trend = [];
        counts = ws_slots 1 2;
        trues = ws_slots 0 1;
      }
      ∷ [];
}

ws_ran : calls ws_calls ws_families ≡ some ws_last
unfolding calls call add64
ws_ran = refl

summarize-Summarizes_example :
    (s : FamilySummary) × (get_elem? (summarize ws_last) 1 ≡ some s)
    × ((s.count % word ≡ 3 % word) × (s.trues % word ≡ 1 % word))
summarize-Summarizes_example =
    summarize-Summarizes ws_defs ws_families ws_last ws_calls 1
      (record { name = codes "ws_failed"; kind = rate }) ws_accepted refl
      (omega arith, (omega arith, (omega arith, (omega arith, (omega arith, tt))))) ws_ran
