-- ===== src/Metrics/Histogram/Tallies.antt =====
-- What the counters of a histogram say of the latencies that were recorded.
use loadtool.Prelude.{
  ℕ, zero, suc, ◌%◌, ◌<◌, ◌≡◌, refl, ap, ◌∙◌, min, List, [], ◌∷◌, map, arith, ◌==◌, if◌then◌else◌,
  count, sum, length, get_or, replicate, length-replicate, word, add64, add64-mod_left,
}
use loadtool.Prelude.Int.{ℤ, pos_part}
use loadtool.Metrics.Bucket.{max_tracked, bucket_index, num_buckets}
use loadtool.Metrics.Bucket.Bounds.{bucket_index-lt-num_buckets}
use loadtool.Metrics.Histogram.{
  Histogram, new_histogram, bump, record_ns, Combined, add_counts, no_samples,
}
use loadtool.Metrics.Histogram.Rank.{minimum, maximum}

-- The bucket that a latency is counted in.
abbrev pub bucket_of : ℕ → ℕ
bucket_of v = bucket_index (min v max_tracked)

-- The counters of `c`, each up to wrap-around, are those of the latencies `vs`.
pub record Tallies (c : Combined) (vs : List ℕ) : Type 0 where
  pub sized : length c.counts ≡ num_buckets
  pub per_bucket : (i : ℕ) → get_or c.counts i 0 ≡ count (λ v. bucket_of v == i) vs % word
  pub total : c.n ≡ length vs % word
  pub summed : c.sum_ns ≡ sum vs % word
  pub least : c.min_ns ≡ minimum vs
  pub greatest : c.max_ns ≡ maximum vs

-- What Load reads from each field.
abbrev pub load : Histogram → Combined
load h = record {
  counts = h.counts;
  n = h.n;
  sum_ns = h.sum_ns;
  min_ns = h.min_ns;
  max_ns = h.max_ns;
}

-- The histogram after the durations of a history, the latest first.
abbrev pub recorded : List ℤ → Histogram
recorded [] = new_histogram
recorded (d ∷ ds) = record_ns (recorded ds) d

length-bump : (cs : List ℕ) (i : ℕ) → length (bump cs i) ≡ length cs
unfolding bump
length-bump [] i = refl
length-bump (c ∷ cs) zero = refl
length-bump (c ∷ cs) (suc i) = ap suc (length-bump cs i)

get_or-bump :
    (cs : List ℕ) (i j : ℕ)
    → i < length cs
    → get_or (bump cs i) j 0 ≡ (if i == j then add64 (get_or cs j 0) 1 else get_or cs j 0)
unfolding bump
get_or-bump [] i j h = absurd (omega arith)
get_or-bump (c ∷ cs) zero zero h = refl
get_or-bump (c ∷ cs) zero (suc j) h = ground arith
get_or-bump (c ∷ cs) (suc i) zero h = ground arith
get_or-bump (c ∷ cs) (suc i) (suc j) h = ground (arith, get_or-bump cs i j)

pub length-add_counts : (cs hs : List ℕ) → length (add_counts cs hs) ≡ length cs
unfolding add_counts
length-add_counts [] hs = refl
length-add_counts (c ∷ cs) [] = refl
length-add_counts (c ∷ cs) (h ∷ hs) = ap suc (length-add_counts cs hs)

pub get_or-add_counts :
    (cs hs : List ℕ) (j : ℕ)
    → length cs ≡ length hs
    → get_or (add_counts cs hs) j 0 ≡ add64 (get_or cs j 0) (get_or hs j 0)
unfolding add_counts
get_or-add_counts [] [] j e = unfold add64 in refl
get_or-add_counts [] (h ∷ hs) j e = absurd (omega arith)
get_or-add_counts (c ∷ cs) [] j e = absurd (omega arith)
get_or-add_counts (c ∷ cs) (h ∷ hs) zero e = refl
get_or-add_counts (c ∷ cs) (h ∷ hs) (suc j) e = get_or-add_counts cs hs j (omega arith)

get_or-replicate : (n i : ℕ) → get_or {A = ℕ} (replicate n 0) i 0 ≡ 0
get_or-replicate zero i = refl
get_or-replicate (suc n) zero = refl
get_or-replicate (suc n) (suc i) = get_or-replicate n i

pub no_samples-Tallies : Tallies no_samples []
unfolding no_samples
no_samples-Tallies = record {
  sized = length-replicate num_buckets 0;
  per_bucket = λ i. get_or-replicate num_buckets i;
  total = refl;
  summed = refl;
  least = refl;
  greatest = refl;
}

new_histogram-Tallies : Tallies (load new_histogram) []
unfolding new_histogram no_samples
new_histogram-Tallies = no_samples-Tallies

pub record_ns-Tallies :
    (h : Histogram) (d : ℤ) (vs : List ℕ)
    → Tallies (load h) vs
    → Tallies (load (record_ns h d)) (pos_part d ∷ vs)
unfolding record_ns
record_ns-Tallies h d vs t = record {
  sized = length-bump h.counts (bucket_of v) ∙ t.sized;
  per_bucket = λ i. ground (
    arith,
    get_or-bump h.counts (bucket_of v) i,
    in_range,
    t.per_bucket i,
    add64-mod_left (count (λ v. bucket_of v == i) vs) 1,
  );
  total = rw t.total (add64-mod_left (length vs) 1 ∙ ap (λ n. n % word) (omega arith));
  summed = rw t.summed (add64-mod_left (sum vs) v);
  least = rw t.least (omega arith);
  greatest = rw t.greatest (omega arith);
}
  where
    v : ℕ
    v = pos_part d

    in_range : bucket_of v < length h.counts
    in_range = omega (arith, bucket_index-lt-num_buckets (min v max_tracked) (omega arith), t.sized)

pub recorded-Tallies : (ds : List ℤ) → Tallies (load (recorded ds)) (map pos_part ds)
recorded-Tallies [] = new_histogram-Tallies
recorded-Tallies (d ∷ ds) =
    record_ns-Tallies (recorded ds) d (map pos_part ds) (recorded-Tallies ds)
