-- ===== src/Metrics/Families/Samples/Summed.antt =====
-- Sums over slots and shards, each up to the wrap-around of 64 bits.
use loadtool.Prelude.{
  ℕ, zero, suc, ◌+◌, ◌%◌, ◌<◌, List, [], ◌∷◌, map, Bool, true, false, not, ◌≡◌, arith,
  if◌then◌else◌, modify, add64, sum, word, length,
}
use loadtool.Prelude.Int.{ℤ}
use loadtool.Metrics.Histogram.{Histogram, Combined, combine_from, combine_one, record_ns}
use loadtool.Metrics.Recorder.{Shard, record_latency}
use loadtool.Metrics.Sampler.{total64}
use loadtool.Metrics.Families.Samples.{add_slot}

pub sum-add_slot :
    (slots : List ℕ) (i n : ℕ)
    → i < length slots
    → sum (add_slot i n slots) % word ≡ (sum slots + n) % word
unfolding add64
sum-add_slot [] i n h = absurd (omega arith)
sum-add_slot (c ∷ cs) zero n h = omega arith
sum-add_slot (c ∷ cs) (suc i) n h = omega (arith, sum-add_slot cs i n (omega arith))

pub sum-total64 : (cs : List ℕ) → total64 cs ≡ sum cs % word
unfolding total64 add64
sum-total64 [] = omega arith
sum-total64 (c ∷ cs) = omega (arith, sum-total64 cs)

abbrev pub oks : List Shard → ℕ
oks shards = sum (map (λ (s : Shard). s.ok.n) shards)

abbrev pub fails : List Shard → ℕ
fails shards = sum (map (λ (s : Shard). s.failed.n) shards)

abbrev pub one : Bool → ℕ
one b = if b then 1 else 0

pub modify-record_latency :
    (shards : List Shard) (i : ℕ) (d : ℤ) (ok : Bool)
    → i < length shards
    → (oks (modify shards i (record_latency d ok)) % word ≡ (oks shards + one ok) % word)
      × (fails (modify shards i (record_latency d ok)) % word
          ≡ (fails shards + one (not ok)) % word)
unfolding record_ns add64
modify-record_latency [] i d ok h = absurd (omega arith)
modify-record_latency (s ∷ shards) zero d true h = (omega arith, omega arith)
modify-record_latency (s ∷ shards) zero d false h = (omega arith, omega arith)
modify-record_latency (s ∷ shards) (suc i) d ok h =
    let (a, b) = modify-record_latency shards i d ok (omega arith) in
    (omega (arith, a), omega (arith, b))

pub n-combine_from :
    (c : Combined) (hs : List Histogram)
    → (combine_from c hs).n % word ≡ (c.n + sum (map (λ (h : Histogram). h.n) hs)) % word
unfolding combine_from combine_one add64
n-combine_from c [] = omega arith
n-combine_from c (h ∷ hs) = omega (arith, n-combine_from (combine_one c h) hs)
