-- ===== src/Metrics/Histogram.antt =====
-- The histograms of internal/metrics/histogram.go. The atomic fields are read and written by one
-- operation at a time: a call of `record` is one step. Latencies are nanoseconds.
pub mod Tallies
pub mod Rank
pub mod Merge
pub mod Percentile
use loadtool.Prelude.{
  ℕ, zero, suc, ◌+◌, ◌*◌, min, max, List, [], ◌∷◌, foldl, Option, none, some, leb, if◌then◌else◌,
  replicate, add64, max_int64,
}
use loadtool.Prelude.Int.{ℤ, pos_part}
use loadtool.Prelude.Float.{Float}
use loadtool.Metrics.Bucket.{max_tracked, bucket_index, num_buckets, bucket_mid}

pub record Histogram : Type 0 where
  pub counts : List ℕ
  pub n : ℕ
  pub sum_ns : ℕ
  pub min_ns : ℕ
  pub max_ns : ℕ

unfoldable pub new_histogram : Histogram
new_histogram = record {
  counts = replicate num_buckets 0;
  n = 0;
  sum_ns = 0;
  min_ns = max_int64;
  max_ns = 0;
}

-- counts[i].Add(1). The code's index is always in range (Bucket.Bounds).
unfoldable pub bump : List ℕ → ℕ → List ℕ
bump [] i = []
bump (c ∷ cs) zero = add64 c 1 ∷ cs
bump (c ∷ cs) (suc i) = c ∷ bump cs i

-- `record`, a reserved word here. A negative duration counts as 0. With no other writer between
-- the load and the swap, each compare-and-swap loop ends in its first round.
unfoldable pub record_ns : Histogram → ℤ → Histogram
record_ns h d =
    let v = pos_part d in
    record {
      counts = bump h.counts (bucket_index (min v max_tracked));
      n = add64 h.n 1;
      sum_ns = add64 h.sum_ns v;
      min_ns = min h.min_ns v;
      max_ns = max h.max_ns v;
    }

-- A merged, read-only view of several histograms.
pub record Combined : Type 0 where
  pub counts : List ℕ
  pub n : ℕ
  pub sum_ns : ℕ
  pub min_ns : ℕ
  pub max_ns : ℕ

-- c.counts[i] += h.counts[i].Load(), for every i
unfoldable pub add_counts : List ℕ → List ℕ → List ℕ
add_counts [] hs = []
add_counts (c ∷ cs) [] = c ∷ cs
add_counts (c ∷ cs) (h ∷ hs) = add64 c h ∷ add_counts cs hs

unfoldable pub combine_one : Combined → Histogram → Combined
combine_one c h = record {
  counts = add_counts c.counts h.counts;
  n = add64 c.n h.n;
  sum_ns = add64 c.sum_ns h.sum_ns;
  min_ns = min c.min_ns h.min_ns;
  max_ns = max c.max_ns h.max_ns;
}

unfoldable pub no_samples : Combined
no_samples = record {
  counts = replicate num_buckets 0;
  n = 0;
  sum_ns = 0;
  min_ns = max_int64;
  max_ns = 0;
}

unfoldable pub combine_from : Combined → List Histogram → Combined
combine_from c [] = c
combine_from c (h ∷ hs) = combine_from (combine_one c h) hs

unfoldable pub combine : List Histogram → Combined
combine hs = combine_from no_samples hs

-- The loop of percentile: the first bucket, from `i`, at which `seen` reaches the rank.
unfoldable pub scan : List ℕ → ℕ → ℕ → ℕ → Option ℕ
scan [] i seen rank = none
scan (c ∷ cs) i seen rank =
    let rest = scan cs (suc i) (add64 seen c) rank in
    if leb rank (add64 seen c) then some i else rest

unfoldable pub at_bucket : Combined → Option ℕ → ℕ
at_bucket c none = c.max_ns
at_bucket c (some i) = min (max (bucket_mid i) c.min_ns) c.max_ns

-- The body of percentile below the computation of `rank`.
unfoldable pub at_rank : Combined → ℕ → ℕ
at_rank c rank = at_bucket c (scan c.counts 0 0 rank)

module _ (fl : Float) where
  open fl use {F, of_nat, decimal, fmul, fdiv, fsub, ceil}

  -- max(uint64(math.Ceil(p*float64(n)/100-1e-9)), 1)
  unfoldable pub rank_of : F → ℕ → ℕ
  rank_of p n = max (ceil (fsub (fdiv (fmul p (of_nat n)) (decimal 100 0)) (decimal 1 9))) 1

  unfoldable pub percentile : Combined → F → ℕ
  percentile c p = at_rank c (rank_of p c.n)
