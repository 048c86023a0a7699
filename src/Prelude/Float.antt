-- ===== src/Prelude/Float.antt =====
-- float64 as an interface: the program's floating-point operations, with no laws assumed. What a
-- property needs of them is a hypothesis of that property.
use loadtool.Prelude.{ℕ, ◌+◌, ◌-◌, ◌*◌, ◌/◌, ◌^◌, Bool, ltb, leb, ◌==◌}

pub record Float : Type 1 where
  pub F : Type 0
  -- float64(n)
  pub of_nat : ℕ → F
  -- the literal m * 10^-k
  pub decimal : ℕ → ℕ → F
  pub fmul : F → F → F
  pub fdiv : F → F → F
  pub fsub : F → F → F
  pub fabs : F → F
  -- uint64(math.Ceil(x))
  pub ceil : F → ℕ
  pub flt : F → F → Bool
  pub fle : F → F → Bool
  pub feq : F → F → Bool

-- Fixed-point numbers with nine decimals, for the examples. A difference stops at 0.
abbrev pub fixed : Float
fixed = record {
  F = ℕ;
  of_nat = λ n. n * 10 ^ 9;
  decimal = λ m k. m * 10 ^ 9 / 10 ^ k;
  fmul = λ a b. a * b / 10 ^ 9;
  fdiv = λ a b. a * 10 ^ 9 / b;
  fsub = λ a b. a - b;
  fabs = λ a. a;
  ceil = λ a. (a + 10 ^ 9 - 1) / 10 ^ 9;
  flt = ltb;
  fle = leb;
  feq = ◌==◌;
}
