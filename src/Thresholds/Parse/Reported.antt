-- ===== src/Thresholds/Parse/Reported.antt =====
-- How many problems Parse reports.
use Prim.Native.String.{String}
use loadtool.Prelude.{
  ◌≡◌, refl, ap, ◌∙◌, ℕ, suc, ◌+◌, List, [], ◌∷◌, Option, none, some, arith, Bytes, length,
}
use loadtool.Prelude.Int.{ℤ}
use loadtool.Prelude.Float.{Float}
use loadtool.Prelude.Result.{Result, err, ok}
use loadtool.Thresholds.{Kind, Metric, Threshold}
use loadtool.Thresholds.Parse.{
  Problem, known, kind_named, checked_as, evaluated_as, parse_expr, Parsed, add_parsed, parse_exprs,
  parse_metric, parse_each,
}

module _ (fl : Float) (seconds : ℤ → fl.F) (parse_float : Bytes → fl.F) where
  -- The expressions of known metrics, and the unknown metrics.
  abbrev pub entries : Option Metric → List String → ℕ
  entries (some m) texts = length texts
  entries none texts = 1

  abbrev pub all_entries : List (String × Kind) → List (String × List String) → ℕ
  all_entries families [] = 0
  all_entries families (d ∷ ds) =
      entries (checked_as (known d.0) (kind_named families d.0) d.0) d.1 + all_entries families ds

  abbrev parsed_size : Parsed fl seconds parse_float → ℕ
  parsed_size a = length a.0 + length a.1

  parse_exprs-size :
      (name : String) (m held : Metric) (texts : List String)
      (after : Parsed fl seconds parse_float)
      → parsed_size (parse_exprs fl seconds parse_float name m held texts after)
        ≡ length texts + parsed_size after
  unfolding parse_exprs
  parse_exprs-size name m held [] after = omega arith
  parse_exprs-size name m held (text ∷ texts) after =
      let rest = parse_exprs-size name m held texts after in
      one (parse_expr fl seconds parse_float name m held text)
        (parse_exprs fl seconds parse_float name m held texts after) rest
    where
      one :
          (r : Result Problem (Threshold fl seconds)) (a : Parsed fl seconds parse_float)
          → parsed_size a ≡ length texts + parsed_size after
          → parsed_size (add_parsed fl seconds parse_float r a)
            ≡ suc (length texts) + parsed_size after
      one (ok t) (out, errs) h = omega arith
      one (err why) (out, errs) h = omega arith

  -- Every expression of a known metric gives one threshold or one problem, and every unknown metric
  -- one problem: Parse stops at none of them.
  pub parse_each-size :
      (families : List (String × Kind)) (defs : List (String × List String))
      → length (parse_each fl seconds parse_float families defs).0
          + length (parse_each fl seconds parse_float families defs).1
        ≡ all_entries families defs
  unfolding parse_each
  parse_each-size families [] = refl
  parse_each-size families (d ∷ ds) =
      split (checked_as (known d.0) (kind_named families d.0) d.0) (parse_each-size families ds)
    where
      split :
          (o : Option Metric)
          → parsed_size (parse_each fl seconds parse_float families ds) ≡ all_entries families ds
          → parsed_size (
              parse_metric fl seconds parse_float d.0
                (kind_named families d.0)
                o
                d.1
                (parse_each fl seconds parse_float families ds))
            ≡ entries o d.1 + all_entries families ds
      split none h = omega arith
      split (some m) h =
          parse_exprs-size d.0 m (evaluated_as m (kind_named families d.0) d.0) d.1
            (parse_each fl seconds parse_float families ds)
          ∙ ap (λ n. length d.1 + n) h
