-- ===== src/Metrics/Histogram/Percentile.antt =====
-- The percentile of a merged histogram against the nearest-rank order statistic of the latencies.
use native.Mathlib.Nat.{mod-eq_of_lt}
use loadtool.Prelude.{
  sum-take-suc, take-length, ℕ, zero, suc, ◌+◌, ◌*◌, ◌≤◌, ◌<◌, ◌≡◌, refl, sym, ap, subst, ◌∙◌, min,
  max, List, [], ◌∷◌, map, some, arith, ltb, lt→ltb, leb, leb→le, ◌⊎◌, ◌==◌, Bool-cases, inl, inr,
  count, sum, length, take, get_or, word, add64, add64-exact,
}
use loadtool.Prelude.Int.{ℤ}
use loadtool.Prelude.Float.{Float}
use loadtool.Metrics.Bucket.{max_tracked, bucket_index, bucket_mid, num_buckets}
use loadtool.Metrics.Bucket.Bounds.{bucket_index_mono, bucket_index-lt-num_buckets}
use loadtool.Metrics.Bucket.Accuracy.{mid-accurate}
use loadtool.Metrics.Histogram.{Combined, scan, at_bucket, at_rank, combine, rank_of, percentile}
use loadtool.Metrics.Histogram.Rank.{
  IsRanked, ranked, ranked_bounds, minimum, maximum, count_mono, count-All, count-none,
  count-le-length, All-every, All-maximum,
}
use loadtool.Metrics.Histogram.Tallies.{Tallies, bucket_of, recorded}
use loadtool.Metrics.Histogram.Merge.{latencies, combine-Tallies}

-- The scan stops at the bucket in which the running total passes the rank.
scan_stops :
    (cs : List ℕ) (i seen rank : ℕ)
    → seen + sum cs < word
    → seen < rank
    → rank ≤ seen + sum cs
    → (j k : ℕ) × (scan cs i seen rank ≡ some k)
      × (k ≡ i + j)
      × (seen + sum (take j cs) < rank)
      × (rank ≤ seen + sum (take (suc j) cs))
unfolding scan
scan_stops [] i seen rank fits low high = absurd (omega arith)
scan_stops (c ∷ cs) i seen rank fits low high =
    let exact : add64 seen c ≡ seen + c = add64-exact seen c (omega arith) in
    elim (Bool-cases (leb rank (add64 seen c))) [
      | inl e ↦ (0, i, rw e, omega arith, omega arith, ground arith)
      | inr e ↦
          let (j, k, found, at, below, above) =
            scan_stops cs (suc i) (add64 seen c) rank (omega arith) (ground arith) (omega arith) in
          (suc j, k, rw e found, omega arith, omega arith, omega arith)
    ]

-- With fewer than 2^64 samples the counters have not wrapped.
count_exact :
    (c : Combined) (vs : List ℕ) (i : ℕ)
    → Tallies c vs
    → length vs < word
    → get_or c.counts i 0 ≡ count (λ v. bucket_of v == i) vs
count_exact c vs i t fits =
    t.per_bucket i ∙ mod-eq_of_lt (omega (arith, count-le-length (λ v. bucket_of v == i) vs))

count-split :
    (j : ℕ) (vs : List ℕ)
    → count (λ v. ltb (bucket_of v) (suc j)) vs
      ≡ count (λ v. ltb (bucket_of v) j) vs + count (λ v. bucket_of v == j) vs
count-split j [] = refl
count-split j (v ∷ vs) = ground (arith, count-split j vs)

-- The running total before bucket `j` is the number of latencies in lower buckets.
running_total :
    (c : Combined) (vs : List ℕ) (j : ℕ)
    → Tallies c vs
    → length vs < word
    → sum (take j c.counts) ≡ count (λ v. ltb (bucket_of v) j) vs
running_total c vs zero t fits = sym (count-none _ vs (All-every (λ v. ground arith) vs))
running_total c vs (suc j) t fits = omega (
  arith,
  sum-take-suc c.counts j,
  running_total c vs j t fits,
  count_exact c vs j t fits,
  count-split j vs,
)

grand_total :
    (c : Combined) (vs : List ℕ) → Tallies c vs → length vs < word → sum c.counts ≡ length vs
grand_total c vs t fits =
    let whole : sum (take num_buckets c.counts) ≡ sum c.counts =
      rw (← t.sized) (ap sum (take-length c.counts)) in
    let all =
      count-All (λ v. ltb (bucket_of v) num_buckets) vs
        (All-every (λ v. lt→ltb _ _ (bucket_index-lt-num_buckets (min v max_tracked) (omega arith)))
          vs) in
    omega (arith, running_total c vs num_buckets t fits)

-- The bucket at which the scan stops is the bucket of the latency of that rank.
bucket_of_rank :
    (vs : List ℕ) (k v j : ℕ)
    → IsRanked vs k v
    → count (λ w. ltb (bucket_of w) j) vs < k
    → k ≤ count (λ w. ltb (bucket_of w) (suc j)) vs
    → bucket_of v ≡ j
bucket_of_rank vs k v j r low high = omega (arith, not_below, not_above)
  where
    not_below : j ≤ bucket_of v
    not_below = elim (Bool-cases (ltb (bucket_of v) j)) [
      | inl e ↦
          let le =
            count_mono (λ w. leb w v) (λ w. ltb (bucket_of w) j) vs
              (All-every
                (λ w h. ground (arith, bucket_index_mono (min w max_tracked) (min v max_tracked)))
                vs) in
          absurd (omega arith)
      | inr e ↦ ground arith
    ]

    not_above : bucket_of v ≤ j
    not_above = elim (Bool-cases (ltb j (bucket_of v))) [
      | inl e ↦
          let le =
            count_mono (λ w. ltb (bucket_of w) (suc j)) (λ w. ltb w v) vs
              (All-every
                (λ w h. ground (arith, bucket_index_mono (min v max_tracked) (min w max_tracked)))
                vs) in
          absurd (omega arith)
      | inr e ↦ ground arith
    ]

rank_of-pos : (fl : Float) (p : fl.F) (n : ℕ) → 1 ≤ rank_of fl p n
unfolding rank_of
rank_of-pos fl p n = omega arith

-- Clamping to bounds of `v` does not take an estimate away from `v`.
clamp-accurate :
    (m v lo hi : ℕ)
    → lo ≤ v
    → v ≤ hi
    → (128 * m ≤ 129 * v) × (127 * v ≤ 128 * m)
    → (128 * min (max m lo) hi ≤ 129 * v) × (127 * v ≤ 128 * min (max m lo) hi)
clamp-accurate m v lo hi a b h = omega arith

mid_of_rank :
    (v j : ℕ)
    → v ≤ max_tracked
    → bucket_of v ≡ j
    → (128 * bucket_mid j ≤ 129 * v) × (127 * v ≤ 128 * bucket_mid j)
mid_of_rank v j h e =
    let own : min v max_tracked ≡ v = omega arith in
    let e' : bucket_index v ≡ j = ap bucket_index (sym own) ∙ e in
    rw e' at (mid-accurate v (omega arith))

-- What `at_rank` says of the latencies of rank `k`: it is within their bounds, and it is within
-- 1/128 of the k-th smallest latency, or that is not tracked.
abbrev pub Estimates : List ℕ → ℕ → ℕ → Type 0
Estimates vs k e =
    (minimum vs ≤ e)
    × (e ≤ maximum vs)
    × ((v : ℕ) × IsRanked vs k v
        × ((max_tracked < v) ⊎ ((128 * e ≤ 129 * v) × (127 * v ≤ 128 * e))))

pub at_rank-Estimates :
    (c : Combined) (vs : List ℕ) (k : ℕ)
    → Tallies c vs
    → length vs < word
    → 1 ≤ k
    → k ≤ length vs
    → Estimates vs k (at_rank c k)
unfolding at_rank at_bucket
at_rank-Estimates c vs k t fits h b =
    let (v, r) = ranked (maximum vs) vs k (All-maximum vs) h b in
    let (lo, hi) = ranked_bounds vs k v h b r in
    let (j, i, found, at, below, above) =
      scan_stops c.counts 0 0 k (omega (arith, grand_total c vs t fits)) h
        (omega (arith, grand_total c vs t fits)) in
    let same : i ≡ j = omega arith in
    let own =
      bucket_of_rank vs k v j r (omega (arith, running_total c vs j t fits))
        (omega (arith, running_total c vs (suc j) t fits))
      ∙ sym same in
    let lo' : c.min_ns ≤ v = omega (arith, t.least) in
    let hi' : v ≤ c.max_ns = omega (arith, t.greatest) in
    rw found (
      omega (arith, t.least, t.greatest),
      omega (arith, t.least, t.greatest),
      (
        v,
        r,
        elim (Bool-cases (leb v max_tracked)) [
          | inl e ↦
              let small : v ≤ max_tracked = leb→le _ _ e in
              inr (
                clamp-accurate (bucket_mid i) v c.min_ns c.max_ns lo' hi'
                  (mid_of_rank v i small own))
          | inr e ↦ let large : max_tracked < v = ground arith in inl large
        ],
      ),
    )

-- The percentile of merged histograms, of at least one and fewer than 2^64 latencies in all, lies
-- between the least and the greatest latency. It is within 1/128 (0.78 %) of the latency whose rank
-- the code computes, the k-th smallest, or that latency is longer than an hour. It is assumed that the rank,
-- computed in floating point, is at most the number of latencies.
pub percentile-Estimates :
    (fl : Float) (p : fl.F) (dss : List (List ℤ))
    → 1 ≤ length (latencies dss)
    → length (latencies dss) < word
    → rank_of fl p (length (latencies dss)) ≤ length (latencies dss)
    → Estimates
        (latencies dss)
        (rank_of fl p (length (latencies dss)))
        (percentile fl (combine (map recorded dss)) p)
unfolding percentile
percentile-Estimates fl p dss some_sample fits rank =
    let c = combine (map recorded dss) in
    let vs = latencies dss in
    let t = combine-Tallies dss in
    let n : c.n ≡ length vs = t.total ∙ mod-eq_of_lt fits in
    subst (λ m. Estimates vs (rank_of fl p (length vs)) (at_rank c (rank_of fl p m))) (sym n)
      (at_rank-Estimates c vs (rank_of fl p (length vs)) t fits (rank_of-pos fl p (length vs)) rank)
