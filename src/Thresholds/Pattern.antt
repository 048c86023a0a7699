-- ===== src/Thresholds/Pattern.antt =====
-- The expressions of thresholds (`exprPattern` of internal/thresholds/thresholds.go): the regular
-- expression as a scan from left to right. Each of its parts can end in one place only, so a scan
-- that never goes back is enough.
pub mod Grammar
pub mod Scanned
mod Read
mod Found
pub mod Matched
use loadtool.Prelude.{
  ℕ, List, [], ◌∷◌, ◌++◌, Option, none, some, Bool, ◌&&◌, ◌||◌, leb, ◌==◌, if◌then◌else◌, Bytes,
  codes,
}
use loadtool.Thresholds.{Aggregate, avg, min, max, med, p, count, rate, Op, lt, le, gt, ge, eq, ne}

-- What the pattern captures: the aggregate, the N of p(N), the operator and the limit.
pub record Match : Type 0 where
  pub aggregate : Aggregate
  pub percent : Bytes
  pub op : Op
  pub limit : Bytes

-- \s
abbrev pub is_blank : ℕ → Bool
is_blank c = c == 9 || c == 10 || c == 12 || c == 13 || c == 32

-- [0-9]
abbrev pub is_digit : ℕ → Bool
is_digit c = leb b'0' c && leb c b'9'

-- The longest beginning whose bytes pass, and what follows it.
abbrev pub span : (ℕ → Bool) → Bytes → Bytes × Bytes
span ok [] = ([], [])
span ok (c ∷ s) = let rest = span ok s in if ok c then (c ∷ rest.0, rest.1) else ([], c ∷ s)

abbrev pub skip : Bytes → Bytes
skip s = (span is_blank s).1

-- What follows a word at the beginning.
abbrev pub strip : Bytes → Bytes → Option Bytes
strip [] s = some s
strip (v ∷ vs) [] = none
strip (v ∷ vs) (c ∷ s) = let rest = strip vs s in if v == c then rest else none

abbrev pub or_next {ℓ} : {A : Type ℓ} → A → Option Bytes → Option (A × Bytes) → Option (A × Bytes)
or_next a none next = next
or_next a (some s) next = some (a, s)

-- The first of several words that stands at the beginning, and what follows it.
abbrev pub first_of {ℓ} : {A : Type ℓ} → List (Bytes × A) → Bytes → Option (A × Bytes)
first_of [] s = none
first_of (w ∷ ws) s = or_next w.1 (strip w.0 s) (first_of ws s)

abbrev pub names : List (Bytes × Aggregate)
names =
    (codes "avg", avg)
    ∷ (codes "min", min)
    ∷ (codes "max", max)
    ∷ (codes "med", med)
    ∷ (codes "count", count)
    ∷ (codes "rate", rate)
    ∷ []

abbrev pub operators : List (Bytes × Op)
operators =
    (codes "<=", le)
    ∷ (codes ">=", ge)
    ∷ (codes "==", eq)
    ∷ (codes "!=", ne)
    ∷ (codes "<", lt)
    ∷ (codes ">", gt)
    ∷ []

-- The code after a part that may be missing.
infixl 5 ◌>?◌
abbrev pub ◌>?◌ {ℓ κ} : {A : Type ℓ} {B : Type κ} → Option A → (A → Option B) → Option B
none >? after = none
some a >? after = after a

-- (?:\.[0-9]+)? at the beginning of `whole`, whose digits after the point are given.
abbrev pub fraction_of : Bytes → Bytes → Bytes → Bytes × Bytes
fraction_of [] rest whole = ([], whole)
fraction_of (d ∷ ds) rest whole = (b'.' ∷ d ∷ ds, rest)

abbrev pub fraction : Bytes → Bytes × Bytes
fraction [] = ([], [])
fraction (c ∷ s) =
    let ds = span is_digit s in if c == b'.' then fraction_of ds.0 ds.1 (c ∷ s) else ([], c ∷ s)

-- [0-9]+(?:\.[0-9]+)?
abbrev pub number_of : Bytes → Bytes → Option (Bytes × Bytes)
number_of [] rest = none
number_of (d ∷ ds) rest = some ((d ∷ ds) ++ (fraction rest).0, (fraction rest).1)

abbrev pub number : Bytes → Option (Bytes × Bytes)
number s = number_of (span is_digit s).0 (span is_digit s).1

abbrev pub with_sign : Bytes × Bytes → Option (Bytes × Bytes)
with_sign (n, rest) = some (b'-' ∷ n, rest)

-- -?[0-9]+(?:\.[0-9]+)?
abbrev pub signed_of : Option Bytes → Bytes → Option (Bytes × Bytes)
signed_of none s = number s
signed_of (some r) s = number r >? with_sign

abbrev pub signed : Bytes → Option (Bytes × Bytes)
signed s = signed_of (strip (codes "-") s) s

-- The rest of p(N), after the number.
abbrev pub percentile_end : Bytes × Bytes → Option ((Aggregate × Bytes) × Bytes)
percentile_end (n, s) = strip (codes ")") (skip s) >? λ rest. some ((p, n), rest)

-- p\(\s*(...)\s*\)
abbrev pub percentile_head : Bytes → Option ((Aggregate × Bytes) × Bytes)
percentile_head s = strip (codes "p(") s >? λ r. number (skip r) >? percentile_end

abbrev pub head_of : Option (Aggregate × Bytes) → Bytes → Option ((Aggregate × Bytes) × Bytes)
head_of (some (a, rest)) s = some ((a, []), rest)
head_of none s = percentile_head s

abbrev pub head : Bytes → Option ((Aggregate × Bytes) × Bytes)
head s = head_of (first_of names s) s

-- The text has ended.
abbrev pub finish : Bytes → Match → Option Match
finish [] m = some m
finish (c ∷ s) m = none

-- What follows the operator.
abbrev pub match_limit : Aggregate × Bytes → Op × Bytes → Option Match
match_limit (a, q) (o, s) = signed (skip s) >? λ r.
    finish (skip r.1) (record { aggregate = a; percent = q; op = o; limit = r.0 })

-- What follows the aggregate.
abbrev pub match_op : (Aggregate × Bytes) × Bytes → Option Match
match_op (a, s) = first_of operators (skip s) >? match_limit a

unfoldable pub match_expr : Bytes → Option Match
match_expr s = head (skip s) >? match_op
