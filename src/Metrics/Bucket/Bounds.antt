-- ===== src/Metrics/Bucket/Bounds.antt =====
-- Where a latency lies: buckets are intervals in the order of the latencies, and none lies past
-- the last.
use native.Mathlib.Nat.{
  pow-suc, pow-le-pow_right, div-add-mod', mod-lt, le-div_iff_mul-le, div-lt_iff_lt-mul,
}
use loadtool.Prelude.{
  ℕ, suc, ◌+◌, ◌-◌, ◌*◌, ◌/◌, ◌%◌, ◌^◌, ◌≤◌, ◌<◌, ◌≡◌, subst, arith, ltb, Bool-cases, inl, inr,
}
use loadtool.Metrics.Bucket.{len64, bucket_index, num_buckets, max_tracked}
use loadtool.Metrics.Bucket.Bits.{shift_brackets}

-- `v` lies in sub-bucket `top` of the power of two `shift`, `rest` above its lower end.
pub record Place (v shift top rest : ℕ) : Type 0 where
  pub from_one : 1 ≤ shift
  pub top_low : 64 ≤ top
  pub top_high : top < 128
  pub inside : rest < 2 ^ shift
  pub value : v ≡ top * 2 ^ shift + rest

pub pow-pos : (s : ℕ) → 0 < 2 ^ s
pow-pos s = pow-le-pow_right (omega arith) {i = 0} {j = s} (omega arith)

pub bucket_Place :
    (v : ℕ) → 128 ≤ v → v < 2 ^ 64 → let s = len64 v - 7 in Place v s (v / 2 ^ s) (v % 2 ^ s)
bucket_Place v h b =
    let s = len64 v - 7 in
    let e = shift_brackets v h b in
    let p = pow-pos s in
    record {
      from_one = e.0;
      top_low = (le-div_iff_mul-le p).1 e.1;
      top_high = (div-lt_iff_lt-mul p).1 e.2;
      inside = mod-lt v p;
      value = omega (arith, div-add-mod' v (2 ^ s));
    }

mul_mono : (a b p : ℕ) → a ≤ b → a * p ≤ b * p
mul_mono a b p h = grind arith

pub Place-low : (v s t r : ℕ) → Place v s t r → 64 * 2 ^ s ≤ v
Place-low v s t r p = omega (arith, mul_mono 64 t (2 ^ s) p.top_low)

pub Place-high : (v s t r : ℕ) → Place v s t r → v < 128 * 2 ^ s
Place-high v s t r p = omega (arith, mul_mono (t + 1) 128 (2 ^ s) (omega arith))

-- A larger shift means a larger value.
shift_mono : (v w s s' t t' r r' : ℕ) → Place v s t r → Place w s' t' r' → v ≤ w → s ≤ s'
shift_mono v w s s' t t' r r' p q h = elim (Bool-cases (ltb s' s)) [
  | inl e ↦
      let step : 2 ^ suc s' ≤ 2 ^ s =
        pow-le-pow_right (omega arith) {i = suc s'} {j = s} (ground arith) in
      absurd (omega (arith, pow-suc 2 s', Place-low v s t r p, Place-high w s' t' r' q))
  | inr e ↦ ground arith
]

top_mono : (v w s t t' r r' : ℕ) → Place v s t r → Place w s t' r' → v ≤ w → t ≤ t'
top_mono v w s t t' r r' p q h = elim (Bool-cases (ltb t' t)) [
  | inl e ↦ absurd (omega (arith, mul_mono (t' + 1) t (2 ^ s) (ground arith)))
  | inr e ↦ ground arith
]

abbrev index_at : ℕ → ℕ → ℕ
index_at s t = 128 + (s - 1) * 64 + (t - 64)

index_at_mono :
    (v w s s' t t' r r' : ℕ)
    → Place v s t r
    → Place w s' t' r'
    → v ≤ w
    → index_at s t ≤ index_at s' t'
index_at_mono v w s s' t t' r r' p q h =
    let le = shift_mono v w s s' t t' r r' p q h in
    elim (Bool-cases (ltb s s')) [
      | inl e ↦ let lt : s < s' = ground arith in omega arith
      | inr e ↦
          let eq : s' ≡ s = ground arith in
          let q' : Place w s t' r' = subst (λ k. Place w k t' r') eq q in
          omega (arith, top_mono v w s t t' r r' p q' h)
    ]

pub bucket_index-small : (v : ℕ) → v < 128 → bucket_index v ≡ v
unfolding bucket_index
bucket_index-small v h = ground arith

pub bucket_index-large :
    (v : ℕ) → 128 ≤ v → bucket_index v ≡ index_at (len64 v - 7) (v / 2 ^ (len64 v - 7))
unfolding bucket_index
bucket_index-large v h = ground arith

pub bucket_index_at : (v s t r : ℕ) → v < 2 ^ 64 → Place v s t r → bucket_index v ≡ index_at s t
bucket_index_at v s t r b p =
    let big : 128 ≤ v = omega (
      arith,
      Place-low v s t r p,
      pow-le-pow_right {n = 2} (omega arith) {i = 1} {j = s} p.from_one,
    ) in
    let own = bucket_Place v big b in
    let le = index_at_mono v v s _ t _ r _ p own (omega arith) in
    let ge = index_at_mono v v _ s _ t _ r own p (omega arith) in
    omega (arith, bucket_index-large v big)

-- Of two latencies below 2^64, the longer does not lie in an earlier bucket.
pub bucket_index_mono : (v w : ℕ) → w < 2 ^ 64 → v ≤ w → bucket_index v ≤ bucket_index w
bucket_index_mono v w b h = elim (Bool-cases (ltb w 128)) [
  | inl e ↦ ground (arith, bucket_index-small v, bucket_index-small w)
  | inr e ↦
      let bigw : 128 ≤ w = ground arith in
      elim (Bool-cases (ltb v 128)) [
        | inl e' ↦
            let small : v < 128 = ground arith in
            omega (arith, bucket_index-small v small, bucket_index-large w bigw)
        | inr e' ↦
            let bigv : 128 ≤ v = ground arith in
            let b' : v < 2 ^ 64 = omega arith in
            let le =
              index_at_mono v w _ _ _ _ _ _ (bucket_Place v bigv b') (bucket_Place w bigw b) h in
            omega (arith, bucket_index-large v bigv, bucket_index-large w bigw)
      ]
]

-- A latency of at most an hour, the longest that is tracked, has a bucket.
pub bucket_index-lt-num_buckets : (v : ℕ) → v ≤ max_tracked → bucket_index v < num_buckets
unfolding num_buckets
bucket_index-lt-num_buckets v h = omega (arith, bucket_index_mono v max_tracked (omega arith) h)
