-- ===== src/Metrics/Bucket/Bits.antt =====
-- bits.Len64 brackets a number between two powers of two.
use native.Mathlib.Nat.{pow-suc, pow-le-pow_right}
use native.Mathlib.Numerals.{towards_suc}
use loadtool.Prelude.{
  ℕ, zero, suc, ◌+◌, ◌-◌, ◌*◌, ◌/◌, ◌^◌, ◌≤◌, ◌<◌, ◌≡◌, refl, arith, ◌==◌, ltb, ap, ◌∙◌, Bool-cases,
  inl, inr,
}
use loadtool.Metrics.Bucket.{len_rounds, len64}

len_rounds-zero : (k : ℕ) → len_rounds k 0 ≡ 0
unfolding len_rounds
len_rounds-zero zero = refl
len_rounds-zero (suc k) = refl

lt-pow-len_rounds : (k v : ℕ) → v < 2 ^ k → v < 2 ^ len_rounds k v
unfolding len_rounds
lt-pow-len_rounds zero v h = h
lt-pow-len_rounds (suc k) v h =
    let half : v / 2 < 2 ^ k = omega (arith, pow-suc 2 k) in
    let ih = lt-pow-len_rounds k (v / 2) half in
    ground (arith, ih, pow-suc 2 (len_rounds k (v / 2)))

pow-len_rounds-le : (k v : ℕ) → v < 2 ^ k → 0 < v → 2 ^ len_rounds k v ≤ 2 * v
unfolding len_rounds
pow-len_rounds-le zero v h p = omega arith
pow-len_rounds-le (suc k) v h p =
    let half : v / 2 < 2 ^ k = omega (arith, pow-suc 2 k) in
    elim (Bool-cases (v / 2 == 0)) [
      | inl e ↦
          let z : v / 2 ≡ 0 = ground arith in
          let l : len_rounds k (v / 2) ≡ 0 = rw z (len_rounds-zero k) in rw l (ground arith)
      | inr e ↦ ground (arith, pow-len_rounds-le k (v / 2) half, pow-suc 2 (len_rounds k (v / 2)))
    ]

pow-shift : (s : ℕ) → 2 ^ (s + 7) ≡ 128 * 2 ^ s
pow-shift s = simp towards_suc (omega (arith, pow-suc 2 s))

brackets :
    (l v : ℕ)
    → 128 ≤ v
    → v < 2 ^ l
    → 2 ^ l ≤ 2 * v
    → (1 ≤ l - 7) × (64 * 2 ^ (l - 7) ≤ v) × (v < 128 * 2 ^ (l - 7))
brackets l v h up down =
    let long : 7 < l = elim (Bool-cases (ltb 7 l)) [
      | inl e ↦ ground arith
      | inr e ↦
          let short : 2 ^ l ≤ 2 ^ 7 =
            pow-le-pow_right (omega arith) {i = l} {j = 7} (ground arith) in
          absurd (omega arith)
    ] in
    let e : l ≡ l - 7 + 7 = omega arith in
    let p : 2 ^ l ≡ 128 * 2 ^ (l - 7) = ap (λ t. 2 ^ t) e ∙ pow-shift (l - 7) in omega arith

-- `64 * 2^s ≤ v < 128 * 2^s` at the shift `s` that the code computes, which is at least 1.
pub shift_brackets :
    (v : ℕ)
    → 128 ≤ v
    → v < 2 ^ 64
    → (1 ≤ len64 v - 7) × (64 * 2 ^ (len64 v - 7) ≤ v) × (v < 128 * 2 ^ (len64 v - 7))
unfolding len64
shift_brackets v h b =
    let up : v < 2 ^ len_rounds 64 v = lt-pow-len_rounds 64 v b in
    let down : 2 ^ len_rounds 64 v ≤ 2 * v = pow-len_rounds-le 64 v b (omega arith) in
    brackets (len_rounds 64 v) v h up down
