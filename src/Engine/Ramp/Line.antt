-- ===== src/Engine/Ramp/Line.antt =====
-- The stage line compared with a level: as the code computes it, in integers, and as an
-- inequality between numbers.
use native.Mathlib.Nat.{le-div_iff_mul-le, div-lt_iff_lt-mul}
use loadtool.Prelude.{
  ℕ, ◌+◌, ◌-◌, ◌*◌, ◌/◌, ◌≤◌, ◌<◌, ◌≡◌, ◌↔◌, ap, Bool, some, arith, leb, Bool-cases, inl, inr,
}
use loadtool.Prelude.Int.{
  pos, ◌-ℤ◌, ◌*ℤ◌, pos_part, neg_part, +ℤ_parts, -ℤ_parts, *ℤ_parts, leb_ℤ, pos-sub, pos-add,
  eq_of_parts,
}
use loadtool.Engine.Ramp.{line, ceil_div}

-- The line from `from` to `to` over `d` is at least `level` at `x`.
abbrev pub Reaches : ℕ → ℕ → ℕ → ℕ → ℕ → Type 0
Reaches level from to d x = level * d + from * x ≤ from * d + to * x

abbrev pub reaches : ℕ → ℕ → ℕ → ℕ → ℕ → Bool
reaches level from to d x = leb (level * d + from * x) (from * d + to * x)

line_parts :
    (from to d x : ℕ)
    → pos_part (line from to d x) + from * x ≡ neg_part (line from to d x) + from * d + to * x
unfolding line
line_parts from to d x =
    let δ = pos to -ℤ pos from in
    omega (
      arith,
      +ℤ_parts (pos (from * d)) (δ *ℤ pos x),
      *ℤ_parts δ (pos x),
      ap (λ (t : ℕ). t * x) (-ℤ_parts (pos to) (pos from)),
    )

pub leb-line :
    (level from to d x : ℕ) → leb_ℤ (pos (level * d)) (line from to d x) ≡ reaches level from to d x
leb-line level from to d x = ground (arith, line_parts from to d x)

-- At or before the end of a stage the line is not negative.
pub line-pos : (from to d x : ℕ) → x ≤ d → line from to d x ≡ pos (from * d + to * x - from * x)
line-pos from to d x h =
    let le : from * x ≤ from * d = grind arith in
    eq_of_parts _ _ (omega (arith, line_parts from to d x))

-- The number of active VUs is at least `level` exactly when the line reaches it.
pub leb-floor :
    (level from to d x : ℕ)
    → 0 < d
    → x ≤ d
    → leb level ((from * d + to * x - from * x) / d) ≡ reaches level from to d x
leb-floor level from to d x p h =
    let le : from * x ≤ from * d = grind arith in
    let iff = le-div_iff_mul-le {k = d} {x = level} {y = from * d + to * x - from * x} p in
    elim (Bool-cases (leb level ((from * d + to * x - from * x) / d))) [
      | inl e ↦ let le' = iff.0 (ground arith) in ground arith
      | inr e ↦ elim (Bool-cases (reaches level from to d x)) [
        | inl r ↦ let le' = iff.1 (ground arith) in ground arith
        | inr r ↦ ground arith
      ]
    ]

-- The quotients of `crossing`, where the differences are not negative.
pub ceil_div-pos : (a b : ℕ) → 0 < b → ceil_div (pos a) (pos b) ≡ some (pos ((a + b - 1) / b))
unfolding ceil_div
ceil_div-pos a b h = rw (pos-add a b, pos-sub (a + b) 1 (omega arith)) (ground arith)

pub ceil-le : (a b x : ℕ) → 0 < b → ((a + b - 1) / b ≤ x) ↔ (a ≤ x * b)
ceil-le a b x h =
    let iff = div-lt_iff_lt-mul {k = b} {x = a + b - 1} {y = x + 1} h in
    (λ le. omega (arith, iff.0 (omega arith)), λ le. omega (arith, iff.1 (omega arith)))

pub floor-lt : (a b x : ℕ) → 0 < b → (x < a / b + 1) ↔ (x * b ≤ a)
floor-lt a b x h =
    let iff = le-div_iff_mul-le {k = b} {x = x} {y = a} h in
    (λ lt. iff.0 (omega arith), λ le. omega (arith, iff.1 le))
