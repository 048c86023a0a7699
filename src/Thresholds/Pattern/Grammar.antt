-- ===== src/Thresholds/Pattern/Grammar.antt =====
-- The language of `exprPattern` as texts put together from their parts.
use loadtool.Prelude.{◌≡◌, ◌≢◌, ◌⊎◌, ℕ, [], ◌∷◌, ◌++◌, true, Bytes, codes, All}
use loadtool.Thresholds.{Aggregate, avg, min, max, med, p, count, rate, Op, lt, le, gt, ge, eq, ne}
use loadtool.Thresholds.Pattern.{Match, is_blank, is_digit}

abbrev pub Spaces : Bytes → Type 0
Spaces = All (λ c. is_blank c ≡ true)

abbrev pub Digits : Bytes → Type 0
Digits s =
    (d : ℕ) × (ds : Bytes) × (s ≡ d ∷ ds) × (is_digit d ≡ true) × All (λ c. is_digit c ≡ true) ds

abbrev pub Fraction : Bytes → Type 0
Fraction s = (s ≡ []) ⊎ ((ds : Bytes) × Digits ds × (s ≡ b'.' ∷ ds))

abbrev pub Number : Bytes → Type 0
Number s = (ds : Bytes) × (f : Bytes) × Digits ds × Fraction f × (s ≡ ds ++ f)

abbrev pub Signed : Bytes → Type 0
Signed s = Number s ⊎ ((n : Bytes) × Number n × (s ≡ b'-' ∷ n))

abbrev pub aggregate_text : Aggregate → Bytes
aggregate_text avg = codes "avg"
aggregate_text min = codes "min"
aggregate_text max = codes "max"
aggregate_text med = codes "med"
aggregate_text p = codes "p"
aggregate_text count = codes "count"
aggregate_text rate = codes "rate"

abbrev pub op_text : Op → Bytes
op_text lt = codes "<"
op_text le = codes "<="
op_text gt = codes ">"
op_text ge = codes ">="
op_text eq = codes "=="
op_text ne = codes "!="

-- The aggregate by its name, or a percentile with its number.
abbrev pub Head : Aggregate → Bytes → Bytes → Type 0
Head a q s =
    ((a ≢ p) × (q ≡ []) × (s ≡ aggregate_text a))
    ⊎ ((left : Bytes) × (right : Bytes) × (a ≡ p)
        × Spaces left
        × Number q
        × Spaces right
        × (s ≡ codes "p(" ++ (left ++ (q ++ (right ++ codes ")")))))

pub record Spelled (m : Match) (s : Bytes) : Type 0 where
  pub before : Bytes
  pub name : Bytes
  pub after_name : Bytes
  pub after_op : Bytes
  pub after : Bytes
  pub before-Spaces : Spaces before
  pub name-Head : Head m.aggregate m.percent name
  pub after_name-Spaces : Spaces after_name
  pub after_op-Spaces : Spaces after_op
  pub limit-Signed : Signed m.limit
  pub after-Spaces : Spaces after
  pub whole :
      s ≡ before ++ (name ++ (after_name ++ (op_text m.op ++ (after_op ++ (m.limit ++ after)))))
