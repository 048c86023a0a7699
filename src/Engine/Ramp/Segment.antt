-- ===== src/Engine/Ramp/Segment.antt =====
-- The crossing that the code computes inside one stage is the first microsecond of the stage at
-- which the line has crossed the level.
use loadtool.Prelude.{
  ℕ, ◌+◌, ◌-◌, ◌*◌, ◌≤◌, ◌<◌, ◌≡◌, ◌↔◌, refl, sym, ap, subst, Bool, true, false, Option, none, some,
  arith, leb, not,
}
use loadtool.Prelude.Int.{ℤ, pos, negsuc}
use loadtool.Engine.Ramp.{same}
use loadtool.Engine.Ramp.Line.{Reaches, reaches}

-- From `x0` on, and before the end `d` of the stage, the line is on the wanted side of the level
-- exactly from `dx` on; a negative `dx` stands for nowhere.
abbrev pub Decides : ℕ → ℕ → ℕ → ℕ → ℕ → Bool → Option ℤ → Type 0
Decides level from to d x0 want none = ⊥
Decides level from to d x0 want (some (negsuc m)) =
    (x : ℕ) → x0 ≤ x → x < d → reaches level from to d x ≡ not want
Decides level from to d x0 want (some (pos q)) =
    (x0 < q) × ((x : ℕ) → x0 ≤ x → x < d → reaches level from to d x ≡ same want (leb q x))

pub Bool-iff : (b c : Bool) → (b ≡ true → c ≡ true) → (c ≡ true → b ≡ true) → b ≡ c
Bool-iff true c f g = sym (f refl)
Bool-iff false true f g = g refl
Bool-iff false false f g = refl

-- The products are compared at `d = y + x`.
reaches_convex :
    (level from to y x : ℕ)
    → level ≤ from
    → level ≤ to
    → level * (y + x) + from * x ≤ from * (y + x) + to * x
reaches_convex level from to y x h k =
    let a : level * y ≤ from * y = grind arith in
    let b : level * x ≤ to * x = grind arith in omega arith

not-reaches_convex :
    (level from to y x : ℕ)
    → from < level
    → to < level
    → 0 < y + x
    → ¬ (level * (y + x) + from * x ≤ from * (y + x) + to * x)
not-reaches_convex level from to y x h k p r =
    let a : (from + 1) * y ≤ level * y = grind arith in
    let b : (to + 1) * x ≤ level * x = grind arith in omega arith

module _ (level from to d : ℕ) where
  pub above_convex : (x : ℕ) → x < d → level ≤ from → level ≤ to → Reaches level from to d x
  above_convex x lt h k =
      let e : d - x + x ≡ d = omega arith in
      subst (λ (t : ℕ). level * t + from * x ≤ from * t + to * x) e
        (reaches_convex level from to (d - x) x h k)

  pub below_convex : (x : ℕ) → x < d → from < level → to < level → ¬ Reaches level from to d x
  below_convex x lt h k r =
      let e : d ≡ d - x + x = omega arith in
      not-reaches_convex level from to (d - x) x h k (omega arith)
        (subst (λ (t : ℕ). level * t + from * x ≤ from * t + to * x) e r)

  -- A line that does not rise, and has not reached the level at `x0`, never does.
  pub falling :
      (x0 x : ℕ) → to ≤ from → x0 ≤ x → Reaches level from to d x → Reaches level from to d x0
  falling x0 x h le r =
      let a : to * (x - x0) ≤ from * (x - x0) = grind arith in
      let e : x ≡ x0 + (x - x0) = omega arith in
      let r' = subst (λ (t : ℕ). level * d + from * t ≤ from * d + to * t) e r in omega arith

  pub rising :
      (x0 x : ℕ) → from ≤ to → x0 ≤ x → Reaches level from to d x0 → Reaches level from to d x
  rising x0 x h le r =
      let a : from * (x - x0) ≤ to * (x - x0) = grind arith in
      let e : x0 + (x - x0) ≡ x = omega arith in
      subst (λ (t : ℕ). level * d + from * t ≤ from * d + to * t) e (omega arith)

  -- Where the level lies above `from`, at or below `to`.
  pub Reaches-up :
      (x : ℕ)
      → from < level
      → level ≤ to
      → Reaches level from to d x ↔ ((level - from) * d ≤ x * (to - from))
  Reaches-up x h k =
      let e : level ≡ from + (level - from) = omega arith in
      let f : to ≡ from + (to - from) = omega arith in
      (
        λ r.
            let r' = subst (λ (t : ℕ). t * d + from * x ≤ from * d + to * x) e r in
            let r'' =
              subst (λ (t : ℕ). (from + (level - from)) * d + from * x ≤ from * d + t * x) f r' in
            omega arith,
        λ r.
            let r' : (from + (level - from)) * d + from * x ≤ from * d + (from + (to - from)) * x =
              omega arith in
            subst (λ (t : ℕ). level * d + from * x ≤ from * d + t * x) (sym f)
              (subst (λ (t : ℕ). t * d + from * x ≤ from * d + (from + (to - from)) * x) (sym e)
                r'),
      )

  -- Where the level lies above `to`, at or below `from`.
  pub Reaches-down :
      (x : ℕ)
      → level ≤ from
      → to < level
      → Reaches level from to d x ↔ (x * (from - to) ≤ (from - level) * d)
  Reaches-down x h k =
      let e : from ≡ level + (from - level) = omega arith in
      let f : from ≡ to + (from - to) = omega arith in
      let ed = ap (λ (t : ℕ). t * d) e in
      let fx = ap (λ (t : ℕ). t * x) f in (λ r. omega arith, λ r. omega arith)
