-- ===== src/Metrics/Histogram/Rank.antt =====
-- Order statistics of a list of numbers, by counting: an independent description of what a
-- nearest-rank percentile is.
use loadtool.Prelude.{
  ℕ, zero, suc, ◌≤◌, ◌<◌, ◌≡◌, refl, min, max, List, [], ◌∷◌, Bool, true, false, arith, ltb, leb,
  Bool-cases, inl, inr, count, length, All, max_int64,
}

-- `v` is the k-th smallest of `vs`, counting from 1.
abbrev pub IsRanked : List ℕ → ℕ → ℕ → Type 0
IsRanked vs k v = (count (λ w. ltb w v) vs < k) × (k ≤ count (λ w. leb w v) vs)

module _ {ℓ} {A : Type ℓ} where
  pub count_mono :
      (p q : A → Bool) (xs : List A)
      → All (λ x. p x ≡ true → q x ≡ true) xs
      → count p xs ≤ count q xs
  count_mono p q [] h = omega arith
  count_mono p q (x ∷ xs) h = ground (arith, h.0, count_mono p q xs h.1)

  pub All-every {κ} : {P : A → Type κ} → ((x : A) → P x) → (xs : List A) → All P xs
  All-every h [] = tt
  All-every h (x ∷ xs) = (h x, All-every h xs)

  pub All-map {κ κ'} :
      {P : A → Type κ} {Q : A → Type κ'}
      → ((x : A) → P x → Q x)
      → (xs : List A) → All P xs
      → All Q xs
  All-map f [] h = tt
  All-map f (x ∷ xs) h = (f x h.0, All-map f xs h.1)

  pub count-le-length : (p : A → Bool) (xs : List A) → count p xs ≤ length xs
  count-le-length p [] = omega arith
  count-le-length p (x ∷ xs) = ground (arith, count-le-length p xs)

  pub count-All : (p : A → Bool) (xs : List A) → All (λ x. p x ≡ true) xs → count p xs ≡ length xs
  count-All p [] h = refl
  count-All p (x ∷ xs) h = ground (arith, count-All p xs h.1)

  pub count-none : (p : A → Bool) (xs : List A) → All (λ x. p x ≡ false) xs → count p xs ≡ 0
  count-none p [] h = refl
  count-none p (x ∷ xs) h = ground (arith, count-none p xs h.1)

count-lt-suc : (v : ℕ) (vs : List ℕ) → count (λ w. ltb w (suc v)) vs ≡ count (λ w. leb w v) vs
count-lt-suc v [] = refl
count-lt-suc v (x ∷ xs) = ground (arith, count-lt-suc v xs)

count-lt-zero : (vs : List ℕ) → count (λ w. ltb w 0) vs ≡ 0
count-lt-zero vs = count-none _ vs (All-every (λ w. ground arith) vs)

IsRanked-below :
    (m : ℕ) (vs : List ℕ) (k : ℕ) → 1 ≤ k → k ≤ count (λ w. leb w m) vs → (v : ℕ) × IsRanked vs k v
IsRanked-below zero vs k h b = (0, (omega (arith, count-lt-zero vs), b))
IsRanked-below (suc m) vs k h b = elim (Bool-cases (leb k (count (λ w. leb w m) vs))) [
  | inl e ↦ IsRanked-below m vs k h (ground arith)
  | inr e ↦ (suc m, (ground (arith, count-lt-suc m vs), b))
]

-- Every rank from 1 to the number of values has a value.
pub ranked :
    (m : ℕ) (vs : List ℕ) (k : ℕ)
    → All (λ w. w ≤ m) vs
    → 1 ≤ k
    → k ≤ length vs
    → (v : ℕ) × IsRanked vs k v
ranked m vs k all h b =
    IsRanked-below m vs k h
      (omega (arith, count-All (λ w. leb w m) vs (All-map (λ w le. ground arith) vs all)))

abbrev pub minimum : List ℕ → ℕ
minimum [] = max_int64
minimum (v ∷ vs) = min v (minimum vs)

abbrev pub maximum : List ℕ → ℕ
maximum [] = 0
maximum (v ∷ vs) = max v (maximum vs)

pub All-minimum : (vs : List ℕ) → All (λ w. minimum vs ≤ w) vs
All-minimum [] = tt
All-minimum (v ∷ vs) =
    (omega arith, All-map (λ w (h : minimum vs ≤ w). omega arith) vs (All-minimum vs))

pub All-maximum : (vs : List ℕ) → All (λ w. w ≤ maximum vs) vs
All-maximum [] = tt
All-maximum (v ∷ vs) =
    (omega arith, All-map (λ w (h : w ≤ maximum vs). omega arith) vs (All-maximum vs))

-- A ranked value lies between the least and the greatest.
pub ranked_bounds :
    (vs : List ℕ) (k v : ℕ)
    → 1 ≤ k
    → k ≤ length vs
    → IsRanked vs k v
    → (minimum vs ≤ v) × (v ≤ maximum vs)
ranked_bounds vs k v h b r = (low, high)
  where
    low : minimum vs ≤ v
    low = elim (Bool-cases (ltb v (minimum vs))) [
      | inl e ↦
          let none_le =
            count-none (λ w. leb w v) vs
              (All-map (λ w (g : minimum vs ≤ w). ground arith) vs (All-minimum vs)) in
          absurd (omega arith)
      | inr e ↦ ground arith
    ]

    high : v ≤ maximum vs
    high = elim (Bool-cases (ltb (maximum vs) v)) [
      | inl e ↦
          let all_lt =
            count-All (λ w. ltb w v) vs
              (All-map (λ w (g : w ≤ maximum vs). ground arith) vs (All-maximum vs)) in
          absurd (omega arith)
      | inr e ↦ ground arith
    ]
