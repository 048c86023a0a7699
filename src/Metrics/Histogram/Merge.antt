-- ===== src/Metrics/Histogram/Merge.antt =====
-- combine adds up what its histograms recorded, in whatever way the latencies were spread over them.
use mathlib.Core.List.{append-nil, append_assoc}
use loadtool.Prelude.{
  ℕ, ◌≤◌, ◌≡◌, sym, ◌∙◌, min, max, List, [], ◌∷◌, ◌++◌, map, arith, ◌==◌, count-append, sum,
  sum-append, length, length-append, add64-mod, max_int64,
}
use loadtool.Prelude.Int.{ℤ, pos_part}
use loadtool.Metrics.Histogram.{Histogram, Combined, combine_one, no_samples, combine_from, combine}
use loadtool.Metrics.Histogram.Rank.{minimum, maximum}
use loadtool.Metrics.Histogram.Tallies.{
  Tallies, bucket_of, load, recorded, recorded-Tallies, no_samples-Tallies, length-add_counts,
  get_or-add_counts,
}

minimum_capped : (vs : List ℕ) → minimum vs ≤ max_int64
minimum_capped [] = omega arith
minimum_capped (v ∷ vs) = omega (arith, minimum_capped vs)

minimum-append : (us vs : List ℕ) → minimum (us ++ vs) ≡ min (minimum us) (minimum vs)
minimum-append [] vs = omega (arith, minimum_capped vs)
minimum-append (u ∷ us) vs = omega (arith, minimum-append us vs)

maximum-append : (us vs : List ℕ) → maximum (us ++ vs) ≡ max (maximum us) (maximum vs)
maximum-append [] vs = omega arith
maximum-append (u ∷ us) vs = omega (arith, maximum-append us vs)

combine_one-Tallies :
    (c : Combined) (h : Histogram) (us vs : List ℕ)
    → Tallies c us
    → Tallies (load h) vs
    → Tallies (combine_one c h) (us ++ vs)
unfolding combine_one
combine_one-Tallies c h us vs t u = record {
  sized = length-add_counts c.counts h.counts ∙ t.sized;
  per_bucket = λ i.
      rw
        (
          get_or-add_counts c.counts h.counts i (t.sized ∙ sym u.sized),
          t.per_bucket i,
          u.per_bucket i,
          count-append (λ v. bucket_of v == i) us vs,
        )
        (add64-mod _ _);
  total = rw (t.total, u.total, length-append us vs) (add64-mod (length us) (length vs));
  summed = rw (t.summed, u.summed, sum-append us vs) (add64-mod (sum us) (sum vs));
  least = rw (t.least, u.least) (sym (minimum-append us vs));
  greatest = rw (t.greatest, u.greatest) (sym (maximum-append us vs));
}

-- The latencies of several histories; a negative duration counts as 0.
abbrev pub latencies : List (List ℤ) → List ℕ
latencies [] = []
latencies (ds ∷ dss) = map pos_part ds ++ latencies dss

combine_from-Tallies :
    (c : Combined) (us : List ℕ) (dss : List (List ℤ))
    → Tallies c us
    → Tallies (combine_from c (map recorded dss)) (us ++ latencies dss)
unfolding combine_from
combine_from-Tallies c us [] t = rw (append-nil us) t
combine_from-Tallies c us (ds ∷ dss) t = rw (← append_assoc us (map pos_part ds) (latencies dss)) (
    combine_from-Tallies (combine_one c (recorded ds)) (us ++ map pos_part ds) dss
      (combine_one-Tallies c (recorded ds) us (map pos_part ds) t (recorded-Tallies ds)))

-- Merging the histograms of any histories tallies all their latencies: every bucket's count, the
-- number of samples and their sum (each modulo 2^64), the least and the greatest.
pub combine-Tallies : (dss : List (List ℤ)) → Tallies (combine (map recorded dss)) (latencies dss)
unfolding combine
combine-Tallies dss = combine_from-Tallies no_samples [] dss no_samples-Tallies
