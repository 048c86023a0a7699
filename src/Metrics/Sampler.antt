-- ===== src/Metrics/Sampler.antt =====
-- The time series sampler (internal/metrics/sampler.go). A call of Sample is a snapshot, read from
-- the shards, and the point that it makes with the previous one. The two slices that the code swaps
-- are one list here: behind the swap `prev` holds the snapshot's counts.
pub mod Conserved
use loadtool.Prelude.{
  ℕ, zero, suc, ◌+◌, ◌-◌, ◌/◌, min, List, [], ◌∷◌, map, ◌==◌, if◌then◌else◌, replicate, add64,
  sub64,
}
use loadtool.Prelude.Int.{ℤ, pos, ◌+ℤ◌}
use loadtool.Prelude.Float.{Float}
use loadtool.Metrics.Bucket.{num_buckets, max_tracked}
use loadtool.Metrics.Histogram.{Combined, add_counts, percentile}
use loadtool.Metrics.Recorder.{Shard}

pub record Point : Type 0 where
  pub at : ℤ
  pub requests : ℕ
  pub failed : ℕ
  pub mean : ℕ
  pub p50 : ℕ
  pub p95 : ℕ
  pub p99 : ℕ
  pub vus : ℕ

pub record Sampler : Type 0 where
  pub prev : List ℕ
  pub prev_failed : ℕ
  pub prev_sum : ℕ

-- NewSampler, but for the list of shards, which a snapshot is given.
unfoldable pub new_sampler : Sampler
new_sampler = record { prev = replicate num_buckets 0; prev_failed = 0; prev_sum = 0 }

-- `cur`, `curFailed` and `curSum`.
pub record Snapshot : Type 0 where
  pub counts : List ℕ
  pub failed : ℕ
  pub sum_ns : ℕ

abbrev pub add_shard : Snapshot → Shard → Snapshot
add_shard c sh = record {
  counts = add_counts (add_counts c.counts sh.ok.counts) sh.failed.counts;
  failed = add64 c.failed sh.failed.n;
  sum_ns = add64 (add64 c.sum_ns sh.ok.sum_ns) sh.failed.sum_ns;
}

unfoldable pub snapshot_from : Snapshot → List Shard → Snapshot
snapshot_from c [] = c
snapshot_from c (sh ∷ shs) = snapshot_from (add_shard c sh) shs

unfoldable pub snapshot : List Shard → Snapshot
snapshot shs =
    snapshot_from (record { counts = replicate num_buckets 0; failed = 0; sum_ns = 0 }) shs

-- The loop over the buckets: their differences, and `n`.
unfoldable pub differences : List ℕ → List ℕ → List ℕ
differences [] ps = []
differences (c ∷ cs) [] = []
differences (c ∷ cs) (p ∷ ps) = sub64 c p ∷ differences cs ps

unfoldable pub total64 : List ℕ → ℕ
total64 [] = 0
total64 (d ∷ ds) = add64 d (total64 ds)

abbrev pub interval : List ℕ → ℕ → Combined
interval ds n = record { counts = ds; n = n; sum_ns = 0; min_ns = 0; max_ns = max_tracked }

-- 0 in an interval without requests.
abbrev pub some_requests : ℕ → ℕ → ℕ
some_requests n v = if n == 0 then 0 else v

module _ (fl : Float) where
  open fl use {of_nat}

  unfoldable pub sample : Sampler → Snapshot → ℤ → ℕ → Point × Sampler
  sample s cur at vus =
      let ds = differences cur.counts s.prev in
      let n = total64 ds in
      let c = interval ds n in
      let failed = min (sub64 cur.failed s.prev_failed) n in
      (
        record {
          at = at;
          requests = n;
          failed = failed;
          mean = some_requests n (sub64 cur.sum_ns s.prev_sum / n);
          p50 = some_requests n (percentile fl c (of_nat 50));
          p95 = some_requests n (percentile fl c (of_nat 95));
          p99 = some_requests n (percentile fl c (of_nat 99));
          vus = vus;
        },
        record {
          prev = cur.counts;
          prev_failed = add64 s.prev_failed failed;
          prev_sum = cur.sum_ns;
        },
      )

  -- One call a second, with the same number of VUs, for each snapshot.
  unfoldable pub sample_all : Sampler → List Snapshot → ℤ → ℕ → List Point × Sampler
  sample_all s [] at vus = ([], s)
  sample_all s (cur ∷ rest) at vus =
      let (p, s') = sample s cur at vus in
      let (ps, s'') = sample_all s' rest (at +ℤ pos 1_000_000_000) vus in (p ∷ ps, s'')
