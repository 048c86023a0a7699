-- ===== src/Engine/Executor/Overflow.antt =====
-- The stage arithmetic of an accepted ramp fits in an int64 if the sum of its durations does, so
-- `Ramp` may compute it in numbers and integers without a bound.
use loadtool.Prelude.{
  zero, suc, get_elem?, some, ◌≡◌, subst, ℕ, ◌+◌, ◌-◌, ◌*◌, ◌^◌, ◌≤◌, ◌<◌, max, All, List, [], ◌∷◌,
  arith,
}
use loadtool.Engine.Ramp.{
  Stage, Ramp, microseconds, max_vus_from, max_vus, length_from, ramp_length,
}
use loadtool.Prelude.Int.{max_int64, wrap_int64-exact}
use loadtool.Engine.Executor.{max_length}
use loadtool.Engine.Executor.Accepted.{Accepts}

-- No stage of an accepted ramp is longer than the ramp, or has more VUs than MaxVUs.
length_from-stage :
    (d : ℕ) (rs : List Stage)
    → (d ≤ length_from d rs) × All (λ st. st.duration ≤ length_from d rs) rs
unfolding length_from
length_from-stage d [] = (omega arith, tt)
length_from-stage d (r ∷ rs) =
    let (a, b) = length_from-stage (d + r.duration) rs in (omega arith, (omega arith, b))

max_vus_from-stage :
    (n : ℕ) (rs : List Stage)
    → (n ≤ max_vus_from n rs) × All (λ st. st.target ≤ max_vus_from n rs) rs
unfolding max_vus_from
max_vus_from-stage n [] = (omega arith, tt)
max_vus_from-stage n (r ∷ rs) =
    let (a, b) = max_vus_from-stage (max n r.target) rs in (omega arith, (omega arith, b))

-- The values that crossing and activeAt compute in a stage, and those before a division.
abbrev pub Fits : ℕ → ℕ → ℕ → ℕ → ℕ → Type 0
Fits level from to d x =
    (from * d + to * x < 2 ^ 63)
    × (from * x + level * d < 2 ^ 63)
    × ((level - from) * d + (to - from) < 2 ^ 63)
    × ((from - level) * d + 1 < 2 ^ 63)

product-le : (a b c d : ℕ) → a ≤ c → b ≤ d → a * b ≤ c * d
product-le a b c d h k = grind arith

Fits-bounded :
    (level from to d x : ℕ)
    → level ≤ 1_000_000
    → from ≤ 1_000_000
    → to ≤ 1_000_000
    → d ≤ 3_600_000_000_000
    → x ≤ d
    → Fits level from to d x
Fits-bounded level from to d x l f t h k = omega (
  arith,
  product-le from d 1_000_000 3_600_000_000_000 f h,
  product-le to x 1_000_000 3_600_000_000_000 t (omega arith),
  product-le from x 1_000_000 3_600_000_000_000 f (omega arith),
  product-le level d 1_000_000 3_600_000_000_000 l h,
  product-le (level - from) d 1_000_000 3_600_000_000_000 (omega arith) h,
  product-le (from - level) d 1_000_000 3_600_000_000_000 (omega arith) h,
)

All-Fits :
    (len vus : ℕ) (rs : List Stage)
    → len ≤ 3_600_000_000_000_000
    → vus ≤ 1_000_000
    → All (λ st. st.duration ≤ len) rs
    → All (λ st. st.target ≤ vus) rs
    → All
        (λ st.
          (level from x : ℕ)
          → level ≤ vus
          → from ≤ vus
          → x ≤ microseconds st.duration
          → Fits level from st.target (microseconds st.duration) x)
        rs
All-Fits len vus [] a b c d = tt
All-Fits len vus (r ∷ rs) a b c d = (
  λ level from x l f k.
      Fits-bounded level from r.target (microseconds r.duration) x (omega arith) (omega arith)
        (omega arith) (omega arith) k,
  All-Fits len vus rs a b c.1 d.1,
)

All-get :
    (P : Stage → Type 0) (rs : List Stage) (i : ℕ) (st : Stage)
    → All P rs
    → get_elem? rs i ≡ some st
    → P st
All-get P [] i st all e = absurd (ground arith)
All-get P (r ∷ rs) zero st all e = subst P (grind arith) all.0
All-get P (r ∷ rs) (suc i) st all e = All-get P rs i st all.1 e

-- In stage i of a ramp that validate accepts, if the exact sum of its durations is an int64: for a
-- VU's level and a starting value that are at most MaxVUs, and
-- a microsecond of the stage, the sums and products of crossing and activeAt are below 2^63.
pub stages-fit :
    (r : Ramp) (i level from x : ℕ) (st : Stage)
    → Accepts r
    → length_from 0 r.stages ≤ max_int64
    → get_elem? r.stages i ≡ some st
    → level ≤ max_vus r
    → from ≤ max_vus r
    → x ≤ microseconds st.duration
    → Fits level from st.target (microseconds st.duration) x
unfolding ramp_length max_vus
stages-fit r i level from x st v exact at l f k =
    let same = wrap_int64-exact (length_from 0 r.stages) exact in
    let ends : length_from 0 r.stages ≤ max_length = ground (arith, v.ends, same) in
    let all =
      All-Fits (length_from 0 r.stages) (max_vus r) r.stages ends v.vus_bounded
        (length_from-stage 0 r.stages).1 (max_vus_from-stage r.start_vus r.stages).1 in
    All-get _ r.stages i st all at level from x l f k
