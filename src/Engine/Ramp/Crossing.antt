-- ===== src/Engine/Ramp/Crossing.antt =====
-- The offset that `crossing` computes for one stage decides the line's side of the level.
use loadtool.Prelude.{
  ℕ, ◌+◌, ◌-◌, ◌*◌, ◌/◌, ◌≤◌, ◌<◌, ◌≡◌, Bool, true, false, some, arith, ltb, leb, not, Bool-cases,
  inl, inr, leb→le, le→leb, ltb→lt, lt→ltb,
}
use loadtool.Prelude.Int.{pos, pos-sub, pos-add, pos-mul, div_ℤ}
use loadtool.Engine.Ramp.{crossing_dx}
use loadtool.Engine.Ramp.Line.{reaches, ceil_div-pos, ceil-le, floor-lt}
use loadtool.Engine.Ramp.Segment.{
  Decides, Bool-iff, above_convex, below_convex, falling, rising, Reaches-up, Reaches-down,
}

module _ (level from to d x0 : ℕ) (inside : x0 < d) where
  -- Joining: the line is below the level at `x0` and ends at or above it.
  joins :
      level ≤ to
      → reaches level from to d x0 ≡ false
      → Decides level from to d x0 true (crossing_dx true level from to d)
  unfolding crossing_dx
  joins h low =
      let up : from < level = elim (Bool-cases (ltb from level)) [
        | inl e ↦ ground arith
        | inr e ↦ let r = above_convex level from to d x0 inside (ground arith) h in ground arith
      ] in
      let t = le→leb level to h in
      let dx = ceil_div-pos ((level - from) * d) (to - from) (omega arith) in
      let q = ((level - from) * d + (to - from) - 1) / (to - from) in
      let side : (x : ℕ) → reaches level from to d x ≡ leb q x = λ x.
        Bool-iff _ _
          (λ r. le→leb q x (
            (ceil-le ((level - from) * d) (to - from) x (omega arith)).1
              ((Reaches-up level from to d x up h).0 (leb→le _ _ r))))
          (λ r. le→leb _ _ (
            (Reaches-up level from to d x up h).1
              ((ceil-le ((level - from) * d) (to - from) x (omega arith)).0 (leb→le q x r)))) in
      let late : x0 < q = ground (arith, side x0) in
      rw
        (
          t,
          pos-sub level from (omega arith),
          pos-sub to from (omega arith),
          pos-mul (level - from) d,
          dx,
        )
        (late, λ x _ _. side x)

  -- Leaving: the line is at or above the level at `x0` and ends below it.
  leaves :
      to < level
      → reaches level from to d x0 ≡ true
      → Decides level from to d x0 false (crossing_dx false level from to d)
  unfolding crossing_dx
  leaves h high =
      let up : level ≤ from = elim (Bool-cases (ltb from level)) [
        | inl e ↦ absurd (below_convex level from to d x0 inside (ground arith) h (leb→le _ _ high))
        | inr e ↦ ground arith
      ] in
      let t = lt→ltb to level h in
      let q = (from - level) * d / (from - to) in
      let dx : div_ℤ (pos ((from - level) * d)) (pos (from - to)) ≡ some (pos q) = ground arith in
      let side : (x : ℕ) → reaches level from to d x ≡ not (leb (q + 1) x) = λ x.
        Bool-iff _ _
          (λ r.
            let lt =
              (floor-lt ((from - level) * d) (from - to) x (omega arith)).1
                ((Reaches-down level from to d x up h).0 (leb→le _ _ r)) in
            ground arith)
          (λ r. le→leb _ _ (
            (Reaches-down level from to d x up h).1
              ((floor-lt ((from - level) * d) (from - to) x (omega arith)).0 (ground arith)))) in
      let late : x0 < q + 1 = ground (arith, side x0) in
      rw
        (
          t,
          pos-sub from level up,
          pos-sub from to (omega arith),
          pos-mul (from - level) d,
          dx,
          pos-add q 1,
        )
        (late, λ x _ _. side x)

  -- The line ends on the side that it is on at `x0`.
  stays_low :
      to < level
      → reaches level from to d x0 ≡ false
      → (x : ℕ) → x0 ≤ x
      → x < d
      → reaches level from to d x ≡ false
  stays_low h low x le lt = elim (Bool-cases (reaches level from to d x)) [
    | inr e ↦ e
    | inl e ↦ elim (Bool-cases (ltb from level)) [
      | inl g ↦ absurd (below_convex level from to d x lt (ground arith) h (leb→le _ _ e))
      | inr g ↦
          let r = falling level from to d x0 x (ground arith) le (leb→le _ _ e) in ground arith
    ]
  ]

  stays_high :
      level ≤ to
      → reaches level from to d x0 ≡ true
      → (x : ℕ) → x0 ≤ x
      → x < d
      → reaches level from to d x ≡ true
  stays_high h high x le lt = elim (Bool-cases (leb from to)) [
    | inl g ↦ le→leb _ _ (rising level from to d x0 x (ground arith) le (leb→le _ _ high))
    | inr g ↦ le→leb _ _ (above_convex level from to d x lt (ground arith) h)
  ]

  -- In every case: with the line on the unwanted side at `x0`.
  pub crossing_dx-Decides :
      (want : Bool)
      → reaches level from to d x0 ≡ not want
      → Decides level from to d x0 want (crossing_dx want level from to d)
  crossing_dx-Decides true low = elim (Bool-cases (leb level to)) [
    | inl e ↦ joins (leb→le _ _ e) low
    | inr e ↦ unfold crossing_dx in rw e (stays_low (ground arith) low)
  ]
  crossing_dx-Decides false high = elim (Bool-cases (ltb to level)) [
    | inl e ↦ leaves (ltb→lt _ _ e) high
    | inr e ↦ unfold crossing_dx in rw e (stays_high (ground arith) high)
  ]
