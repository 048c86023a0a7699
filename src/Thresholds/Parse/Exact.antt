-- ===== src/Thresholds/Parse/Exact.antt =====
-- What Parse accepts, and what it makes of it.
use Prim.Native.String.{String}
use loadtool.Prelude.{
  ◌≡◌, ◌↔◌, refl, sym, ap, ap₂, subst, ◌∙◌, List, [], ◌∷◌, ◌++◌, Option, none, some, true, false,
  not, some_inj, Bytes, codes, negated,
}
use loadtool.Prelude.Int.{ℤ}
use loadtool.Prelude.Float.{Float}
use loadtool.Prelude.Result.{
  Result, err, ok, ok_inj, ◌>>=◌, some_or, >>=-eq-ok, guards-eq-ok, some_or-eq-ok,
}
use loadtool.Thresholds.{Kind, Metric, Threshold}
use loadtool.Thresholds.Pattern.{Match, match_expr}
use loadtool.Thresholds.Pattern.Grammar.{Spelled}
use loadtool.Thresholds.Pattern.Matched.{match_expr_iff}
use loadtool.Thresholds.Parse.{
  Problem, bad_percentile, unsupported, no_expression, known, aggregates_of, supports, kind_named,
  checked_as, evaluated_as, percent_of, is_out_of_range, threshold_of, parse_match, parse_expr,
  Parsed, add_parsed, parse_exprs, parse_metric, parse_each, without_errors, parse, unknown,
}

module _ (fl : Float) (seconds : ℤ → fl.F) (parse_float : Bytes → fl.F) where
  -- The text is an expression of the metric, with a percentile in range; `t` is what it says.
  abbrev pub Reads : Metric → Metric → String → Threshold fl seconds → Type 0
  Reads m held text t =
      (g : Match) × Spelled g (codes text)
      × (is_out_of_range fl seconds parse_float g.aggregate
            (percent_of fl seconds parse_float g.aggregate g.percent)
          ≡ false)
      × (supports (aggregates_of m) g.aggregate ≡ true)
      × (t ≡ threshold_of fl seconds parse_float held text g)

  -- The thresholds of the expressions of one metric, in their order.
  abbrev pub ReadsEach : Metric → Metric → List String → List (Threshold fl seconds) → Type 0
  ReadsEach m held [] ts = ts ≡ []
  ReadsEach m held (text ∷ texts) ts =
      (t : Threshold fl seconds) × (rest : List (Threshold fl seconds)) × Reads m held text t
      × ReadsEach m held texts rest
      × (ts ≡ t ∷ rest)

  -- The thresholds of all metrics, in their order: each metric is known, or a family.
  abbrev pub ReadsAll :
      List (String × Kind) → List (String × List String) → List (Threshold fl seconds) → Type 0
  ReadsAll families [] ts = ts ≡ []
  ReadsAll families (d ∷ ds) ts =
      let kind = kind_named families d.0 in
      (m : Metric) × (own : List (Threshold fl seconds)) × (rest : List (Threshold fl seconds))
      × (checked_as (known d.0) kind d.0 ≡ some m)
      × ReadsEach m (evaluated_as m kind d.0) d.1 own
      × ReadsAll families ds rest
      × (ts ≡ own ++ rest)

  parse_expr_iff :
      (name : String) (m held : Metric) (text : String) (t : Threshold fl seconds)
      → (parse_expr fl seconds parse_float name m held text ≡ ok t) ↔ Reads m held text t
  unfolding parse_expr
  parse_expr_iff name m held text t = (to, from)
    where
      to :
          some_or (no_expression name text) (match_expr (codes text))
              >>= parse_match fl seconds parse_float name m held text
            ≡ ok t
          → Reads m held text t
      to h =
          let (g, found, h') =
            >>=-eq-ok (some_or (no_expression name text) (match_expr (codes text)))
              (parse_match fl seconds parse_float name m held text) h in
          let (fine, there, made) =
            guards-eq-ok
              (is_out_of_range fl seconds parse_float g.aggregate
                (percent_of fl seconds parse_float g.aggregate g.percent))
              (not (supports (aggregates_of m) g.aggregate)) (bad_percentile name text g.percent)
              (unsupported name text g.aggregate)
              (ok (threshold_of fl seconds parse_float held text g)) h' in
          (
            g,
            (match_expr_iff (codes text) g).0
                (some_or-eq-ok (no_expression name text) (match_expr (codes text)) found),
            fine,
            negated (supports (aggregates_of m) g.aggregate) there,
            sym (ok_inj made),
          )

      from :
          Reads m held text t
          → some_or (no_expression name text) (match_expr (codes text))
              >>= parse_match fl seconds parse_float name m held text
            ≡ ok t
      from (g, spelled, fine, there, made) =
          let found = (match_expr_iff (codes text) g).1 spelled in rw (found, fine, there, made)

  add_parsed-splits :
      (r : Result Problem (Threshold fl seconds)) (a : Parsed fl seconds parse_float)
      (ts : List (Threshold fl seconds))
      → add_parsed fl seconds parse_float r a ≡ (ts, [])
      → (t : Threshold fl seconds) × (rest : List (Threshold fl seconds)) × (r ≡ ok t)
        × (a ≡ (rest, []))
        × (ts ≡ t ∷ rest)
  add_parsed-splits (ok t) (out, errs) ts h = (
    t,
    out,
    refl,
    ap₂ (λ a b. (a, b)) refl (ap (λ (a : Parsed fl seconds parse_float). a.1) h),
    sym (ap (λ (a : Parsed fl seconds parse_float). a.0) h),
  )
  add_parsed-splits (err why) (out, errs) ts h =
      let bad : why ∷ errs ≡ [] = ap (λ (a : Parsed fl seconds parse_float). a.1) h in
      absurd (cc bad)

  parse_exprs-to :
      (name : String) (m held : Metric) (texts : List String)
      (after : Parsed fl seconds parse_float) (ts : List (Threshold fl seconds))
      → parse_exprs fl seconds parse_float name m held texts after ≡ (ts, [])
      → (own : List (Threshold fl seconds)) × (rest : List (Threshold fl seconds)) × ReadsEach m
          held texts own
        × (after ≡ (rest, []))
        × (ts ≡ own ++ rest)
  unfolding parse_exprs
  parse_exprs-to name m held [] after ts h = ([], ts, refl, h, refl)
  parse_exprs-to name m held (text ∷ texts) after ts h =
      let (t, rest, read, h', ts_is) =
        add_parsed-splits (parse_expr fl seconds parse_float name m held text)
          (parse_exprs fl seconds parse_float name m held texts after) ts h in
      let (own, last, reads, e, rest_is) = parse_exprs-to name m held texts after rest h' in
      (
        t ∷ own,
        last,
        (t, own, (parse_expr_iff name m held text t).0 read, reads, refl),
        e,
        ts_is ∙ ap (λ x. t ∷ x) rest_is,
      )

  parse_exprs-from :
      (name : String) (m held : Metric) (texts : List String)
      (after : Parsed fl seconds parse_float) (own rest : List (Threshold fl seconds))
      → ReadsEach m held texts own
      → after ≡ (rest, [])
      → parse_exprs fl seconds parse_float name m held texts after ≡ (own ++ rest, [])
  unfolding parse_exprs
  parse_exprs-from name m held [] after own rest e e' = rw (e, e')
  parse_exprs-from name m held (text ∷ texts) after own rest (t, own', read, reads, own_is) e =
      let one = (parse_expr_iff name m held text t).1 read in
      let others = parse_exprs-from name m held texts after own' rest reads e in
      rw (one, others, own_is)

  parse_each_iff :
      (families : List (String × Kind)) (defs : List (String × List String))
      (ts : List (Threshold fl seconds))
      → (parse_each fl seconds parse_float families defs ≡ (ts, [])) ↔ ReadsAll families defs ts
  unfolding parse_each
  parse_each_iff families [] ts =
      (λ h. sym (ap (λ (a : Parsed fl seconds parse_float). a.0) h), λ h. rw h)
  parse_each_iff families (d ∷ ds) ts =
      split (checked_as (known d.0) (kind_named families d.0) d.0) refl (parse_each_iff families ds)
    where
      split :
          (o : Option Metric)
          → checked_as (known d.0) (kind_named families d.0) d.0 ≡ o
          → ((ts' : List (Threshold fl seconds))
              → (parse_each fl seconds parse_float families ds ≡ (ts', []))
                ↔ ReadsAll families ds ts')
          → (parse_metric fl seconds parse_float d.0
                (kind_named families d.0)
                o
                d.1
                (parse_each fl seconds parse_float families ds)
              ≡ (ts, []))
            ↔ ReadsAll families (d ∷ ds) ts
      split none e ih = (
        λ h.
            let bad : unknown d.0 ∷ (parse_each fl seconds parse_float families ds).1 ≡ [] =
              ap (λ (a : Parsed fl seconds parse_float). a.1) h in
            absurd (cc bad),
        λ (m', own, rest, e', reads, all, ts_is).
            let bad : none ≡ some m' = sym e ∙ e' in absurd (cc bad),
      )
      split (some m) e ih = (
        λ h.
            let (own, rest, reads, after, ts_is) =
              parse_exprs-to d.0 m (evaluated_as m (kind_named families d.0) d.0) d.1
                (parse_each fl seconds parse_float families ds) ts h in
            (m, own, rest, e, reads, (ih rest).0 after, ts_is),
        λ (m', own, rest, e', reads, all, ts_is).
            let same : m' ≡ m = some_inj (sym e' ∙ e) in
            let reads' : ReadsEach m (evaluated_as m (kind_named families d.0) d.0) d.1 own =
              subst (λ x. ReadsEach x (evaluated_as x (kind_named families d.0) d.0) d.1 own) same
                reads in
            let made =
              parse_exprs-from d.0 m (evaluated_as m (kind_named families d.0) d.0) d.1
                (parse_each fl seconds parse_float families ds) own rest reads' ((ih rest).1 all) in
            rw (made, ts_is),
      )

  -- Parse succeeds with certain thresholds exactly if every metric is known or a family, every
  -- expression is spelled as the regular expression says with a percentile above 0 and at most
  -- 100 and an aggregate of its metric, and the thresholds are those that the expressions say, in
  -- the order of the metrics and then of the expressions.
  pub parse_iff :
      (families : List (String × Kind)) (defs : List (String × List String))
      (ts : List (Threshold fl seconds))
      → (parse fl seconds parse_float families defs ≡ ok ts) ↔ ReadsAll families defs ts
  unfolding parse
  parse_iff families defs ts = (
    λ h.
        (parse_each_iff families defs ts).0
          (to (parse_each fl seconds parse_float families defs) h),
    λ h. let e = (parse_each_iff families defs ts).1 h in rw e,
  )
    where
      to :
          (a : Parsed fl seconds parse_float)
          → without_errors fl seconds parse_float a ≡ ok ts
          → a ≡ (ts, [])
      to (out, []) h = let e = ok_inj h in rw e
      to (out, why ∷ errs) h = absurd (cc h)
