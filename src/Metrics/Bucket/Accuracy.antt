-- ===== src/Metrics/Bucket/Accuracy.antt =====
-- How close a bucket's midpoint is to the latencies in the bucket.
use native.Mathlib.Nat.{pow-suc, pow-le-pow_right}
use loadtool.Prelude.{
  ℕ, zero, suc, ◌+◌, ◌-◌, ◌*◌, ◌/◌, ◌%◌, ◌^◌, ◌≤◌, ◌<◌, ◌≡◌, ap, ◌∙◌, arith, false, ltb, Bool-cases,
  inl, inr,
}
use loadtool.Metrics.Bucket.{len64, bucket_index, bucket_mid, num_buckets, num_buckets_value}
use loadtool.Metrics.Bucket.Bounds.{
  Place, bucket_Place, bucket_index_at, bucket_index-small, bucket_index-large, Place-low,
  Place-high, pow-pos,
}

bucket_mid-small : (i : ℕ) → i < 128 → bucket_mid i ≡ i
unfolding bucket_mid
bucket_mid-small i h = ground arith

-- The midpoint of sub-bucket `t` at shift `s + 1`.
bucket_mid-large :
    (i s t : ℕ)
    → 64 ≤ t
    → t < 128
    → i ≡ 128 + s * 64 + (t - 64)
    → bucket_mid i ≡ t * 2 ^ suc s + 2 ^ s
unfolding bucket_mid
bucket_mid-large i s t lo hi e =
    let shift : (i - 128) / 64 + 1 ≡ suc s = omega arith in
    let top : 64 + (i - 128) % 64 ≡ t = omega arith in
    let half : 2 ^ suc s / 2 ≡ 2 ^ s = omega (arith, pow-suc 2 s) in
    let big : ltb i 128 ≡ false = ground arith in rw (big, shift, top, half)

-- The midpoint of the bucket of a latency below 2^64 is within 1/128 (0.78 %) of the latency, from
-- both sides.
pub mid-accurate :
    (v : ℕ)
    → v < 2 ^ 64
    → (128 * bucket_mid (bucket_index v) ≤ 129 * v) × (127 * v ≤ 128 * bucket_mid (bucket_index v))
mid-accurate v b = elim (Bool-cases (ltb v 128)) [
  | inl e ↦
      let small : v < 128 = ground arith in
      let i : bucket_index v ≡ v = bucket_index-small v small in
      let m : bucket_mid (bucket_index v) ≡ v = ap bucket_mid i ∙ bucket_mid-small v small in
      omega arith
  | inr e ↦
      let big : 128 ≤ v = ground arith in
      let s = len64 v - 7 in
      let p = bucket_Place v big b in
      let m =
        bucket_mid-large (bucket_index v) (s - 1) (v / 2 ^ s) p.top_low p.top_high
          (bucket_index-large v big) in
      close v s _ _ p m
]
  where
    close :
        (v s t r : ℕ) {m : ℕ}
        → Place v s t r
        → m ≡ t * 2 ^ suc (s - 1) + 2 ^ (s - 1)
        → (128 * m ≤ 129 * v) × (127 * v ≤ 128 * m)
    close v zero t r p e = absurd (omega arith)
    close v (suc s) t r p e =
        let k : suc s - 1 ≡ s = omega arith in
        let e' = rw k at e in omega (arith, Place-low v (suc s) t r p, pow-suc 2 s, e')

-- The midpoint of each of the histogram's buckets lies in that bucket.
pub bucket_index-mid : (i : ℕ) → i < num_buckets → bucket_index (bucket_mid i) ≡ i
bucket_index-mid i h = elim (Bool-cases (ltb i 128)) [
  | inl e ↦
      let small : i < 128 = ground arith in
      rw (bucket_mid-small i small) (bucket_index-small i small)
  | inr e ↦
      let big : 128 ≤ i = ground arith in
      let s = (i - 128) / 64 in
      let t = 64 + (i - 128) % 64 in
      let m : bucket_mid i ≡ t * 2 ^ suc s + 2 ^ s =
        bucket_mid-large i s t (omega arith) (omega arith) (omega arith) in
      let place : Place (bucket_mid i) (suc s) t (2 ^ s) = record {
        from_one = omega arith;
        top_low = omega arith;
        top_high = omega arith;
        inside = omega (arith, pow-suc 2 s, pow-pos s);
        value = m;
      } in
      let bound : 2 ^ suc s ≤ 2 ^ 35 =
        pow-le-pow_right (omega arith) {i = suc s} {j = 35} (omega (arith, num_buckets_value)) in
      let at =
        bucket_index_at (bucket_mid i) (suc s) t (2 ^ s) (omega (arith, Place-high _ _ _ _ place))
          place in
      omega arith
]
