-- ===== src/Engine/Ramp/Active.antt =====
-- activeAt counts VUs: it is at most MaxVUs, and it does not panic, except in a stage that is
-- shorter than a microsecond.
use loadtool.Prelude.{
  ℕ, ◌+◌, ◌-◌, ◌*◌, ◌/◌, ◌%◌, ◌≤◌, ◌<◌, ◌≡◌, refl, ap, ◌∙◌, max, List, [], ◌∷◌, none, some, arith,
  ltb, ◌&&◌, true, false, Bool-cases, inl, inr, All, ◌==◌,
}
use native.Mathlib.Nat.{div-le_of_le-mul}
use loadtool.Prelude.Int.{pos}
use loadtool.Engine.Ramp.{Stage, Ramp, microseconds, max_vus_from, max_vus, active_from, active_at}
use loadtool.Engine.Ramp.Line.{line-pos}
use loadtool.Engine.Ramp.Finds.{IsWhole}

max_vus_from-le : (n : ℕ) (sts : List Stage) → n ≤ max_vus_from n sts
unfolding max_vus_from
max_vus_from-le n [] = omega arith
max_vus_from-le n (st ∷ sts) = omega (arith, max_vus_from-le (max n st.target) sts)

max_vus_from_mono : (n m : ℕ) (sts : List Stage) → n ≤ m → max_vus_from n sts ≤ max_vus_from m sts
unfolding max_vus_from
max_vus_from_mono n m [] h = h
max_vus_from_mono n m (st ∷ sts) h =
    max_vus_from_mono (max n st.target) (max m st.target) sts (omega arith)

-- Between its ends the line is at most the larger of them.
floor-le-max : (from to d x : ℕ) → x ≤ d → 0 < d → (from * d + to * x - from * x) / d ≤ max from to
floor-le-max from to d x h p =
    let m = max from to in
    let y = d - x in
    let e : d ≡ y + x = omega arith in
    let f : from * d ≡ from * y + from * x = ap (λ (t : ℕ). from * t) e ∙ omega arith in
    let g : d * m ≡ y * m + x * m = ap (λ (t : ℕ). t * m) e ∙ omega arith in
    let a : from * y ≤ y * m = grind arith in
    let b : to * x ≤ x * m = grind arith in div-le_of_le-mul d (omega arith)

active_from-bounded :
    (sts : List Stage) (seg from s : ℕ)
    → All IsWhole sts
    → seg ≤ s
    → (n : ℕ) × (active_from sts seg from s ≡ some (pos n)) × (n ≤ max_vus_from from sts)
unfolding active_from max_vus_from
active_from-bounded [] seg from s w h = (0, refl, omega arith)
active_from-bounded (st ∷ sts) seg from s w h =
    let d = microseconds st.duration in
    let x = microseconds (s - seg) in
    elim (Bool-cases (ltb 0 st.duration && ltb s (seg + st.duration))) [
      | inl e ↦
          let long : 0 < st.duration = ground arith in
          let live : s < seg + st.duration = ground arith in
          let whole : st.duration % 1000 ≡ 0 = w.0 in
          let p : 0 < d = omega arith in
          let le : x ≤ d = omega arith in
          let v = line-pos from st.target d x le in
          let zero_test : (d == 0) ≡ false = ground arith in
          (
            (from * d + st.target * x - from * x) / d,
            rw (e, v, zero_test),
            omega (
              arith,
              floor-le-max from st.target d x le p,
              max_vus_from-le (max from st.target) sts,
            ),
          )
      | inr e ↦
          let past : seg + st.duration ≤ s = ground arith in
          let (n, eq, le) = active_from-bounded sts (seg + st.duration) st.target s w.1 past in
          (
            n,
            rw e eq,
            omega (arith, max_vus_from_mono st.target (max from st.target) sts (omega arith)),
          )
    ]

-- With stages of whole microseconds, activeAt returns a number between 0 and MaxVUs at every
-- offset.
pub active_at-bounded :
    (e : Ramp) (s : ℕ)
    → All IsWhole e.stages
    → (n : ℕ) × (active_at e s ≡ some (pos n)) × (n ≤ max_vus e)
unfolding active_at max_vus
active_at-bounded e s w = active_from-bounded e.stages 0 e.start_vus s w (omega arith)

-- In a first stage that lasts, but less than a microsecond, activeAt divides by zero.
pub active_at-panic :
    (n g s : ℕ) (st : Stage) (sts : List Stage)
    → st.duration < 1000
    → s < st.duration
    → active_at (record { start_vus = n; stages = st ∷ sts; graceful_ramp_down = g }) s ≡ none
unfolding active_at active_from
active_at-panic n g s st sts short h =
    let d : microseconds st.duration ≡ 0 = omega arith in
    let long : (ltb 0 st.duration && ltb s (0 + st.duration)) ≡ true = ground arith in rw (long, d)
