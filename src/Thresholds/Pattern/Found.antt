-- ===== src/Thresholds/Pattern/Found.antt =====
-- A text put together as in the language, under the scan.
use mathlib.Core.List.{append-nil}
use loadtool.Prelude.{
  ◌≡◌, ◌≢◌, inl, inr, refl, sym, ap, subst, ◌∙◌, ℕ, [], ◌∷◌, ◌++◌, some, Bool, true, false, ◌==◌,
  arith, Bytes, codes,
}
use loadtool.Thresholds.{Aggregate, avg, min, max, med, p, count, rate, Op, lt, le, gt, ge, eq, ne}
use loadtool.Thresholds.Pattern.{
  Match, is_blank, is_digit, skip, first_of, operators, head, match_expr,
}
use loadtool.Thresholds.Pattern.Grammar.{Spaces, Signed, Head, Spelled, aggregate_text, op_text}
use loadtool.Thresholds.Pattern.Scanned.{
  Stops, goes_on, skip-append, number-append, signed-append, Number-starts,
}
use loadtool.Thresholds.Pattern.Read.{regroup}

-- Blanks and a limit do not begin with a byte of certain kinds.
Spaces-Stops :
    (ok : ℕ → Bool) (a b : Bytes)
    → ((c : ℕ) → is_blank c ≡ true → ok c ≡ false)
    → Spaces a
    → Stops ok b
    → Stops ok (a ++ b)
Spaces-Stops ok [] b h all stop = stop
Spaces-Stops ok (c ∷ a) b h all stop = h c all.0

Signed-Stops :
    (ok : ℕ → Bool) (n r : Bytes)
    → ((c : ℕ) → is_digit c ≡ true → ok c ≡ false)
    → ok b'-' ≡ false
    → Signed n
    → Stops ok (n ++ r)
Signed-Stops ok n r digit dash (inl h) =
    let (d, t, whole, d_is) = Number-starts n r h in rw whole (digit d d_is)
Signed-Stops ok n r digit dash (inr (m, h, e)) = rw e dash

blank-not_digit : (c : ℕ) → is_digit c ≡ true → is_blank c ≡ false
blank-not_digit c h = ground arith

goes_on-blank : (c : ℕ) → is_blank c ≡ true → goes_on c ≡ false
goes_on-blank c h = ground arith

equals-blank : (c : ℕ) → is_blank c ≡ true → (b'=' == c) ≡ false
equals-blank c h = ground arith

equals-digit : (c : ℕ) → is_digit c ≡ true → (b'=' == c) ≡ false
equals-digit c h = ground arith

op-append :
    (o : Op) (r : Bytes)
    → Stops (λ c. b'=' == c) r
    → first_of operators (op_text o ++ r) ≡ some (o, r)
op-append le r stop = refl
op-append ge r stop = refl
op-append eq r stop = refl
op-append ne r stop = refl
op-append lt [] stop = refl
op-append lt (c ∷ r) stop = rw stop
op-append gt [] stop = refl
op-append gt (c ∷ r) stop = rw stop

op-Stops : (o : Op) (r : Bytes) → Stops is_blank (op_text o ++ r)
op-Stops le r = refl
op-Stops ge r = refl
op-Stops eq r = refl
op-Stops ne r = refl
op-Stops lt r = refl
op-Stops gt r = refl

name-append :
    (a : Aggregate) (r : Bytes)
    → a ≢ p
    → (head (aggregate_text a ++ r) ≡ some ((a, []), r)) × Stops is_blank (aggregate_text a ++ r)
name-append avg r h = (refl, refl)
name-append min r h = (refl, refl)
name-append max r h = (refl, refl)
name-append med r h = (refl, refl)
name-append p r h = absurd (h refl)
name-append count r h = (refl, refl)
name-append rate r h = (refl, refl)

head-append :
    (a : Aggregate) (q name r : Bytes)
    → Head a q name
    → (head (name ++ r) ≡ some ((a, q), r)) × Stops is_blank (name ++ r)
head-append a q name r (inl (other, q_is, e)) = rw (e, q_is) (name-append a r other)
head-append a q name r (inr (left, right, a_is, left-Spaces, q-Number, right-Spaces, e)) =
    let whole : name ++ r ≡ codes "p(" ++ (left ++ (q ++ (right ++ (codes ")" ++ r)))) =
      ap (λ x. x ++ r) e ∙ ap (λ x. codes "p(" ++ x) (regroup left q right (codes ")") r) in
    let tail = right ++ (codes ")" ++ r) in
    let skip_left =
      skip-append left (q ++ tail) left-Spaces
        (Signed-Stops is_blank q tail blank-not_digit refl (inl q-Number)) in
    let at_q =
      number-append q tail q-Number
        (Spaces-Stops goes_on right (codes ")" ++ r) goes_on-blank right-Spaces refl) in
    let skip_right = skip-append right (codes ")" ++ r) right-Spaces refl in
    rw (whole, skip_left, at_q, skip_right, a_is) (refl, refl)

pub Spelled-match_expr : (s : Bytes) (m : Match) → Spelled m s → match_expr s ≡ some m
unfolding match_expr
Spelled-match_expr s m h =
    let from_limit = m.limit ++ h.after in
    let from_op = op_text m.op ++ (h.after_op ++ from_limit) in
    let (at_head, name-Stops) =
      head-append m.aggregate m.percent h.name (h.after_name ++ from_op) h.name-Head in
    let skip_before =
      skip-append h.before (h.name ++ (h.after_name ++ from_op)) h.before-Spaces name-Stops in
    let skip_name =
      skip-append h.after_name from_op h.after_name-Spaces
        (op-Stops m.op (h.after_op ++ from_limit)) in
    let limit_not : (ok : ℕ → Bool)
        → ((c : ℕ) → is_digit c ≡ true → ok c ≡ false)
        → ok b'-' ≡ false
        → Stops ok from_limit =
      λ ok digit dash. Signed-Stops ok m.limit h.after digit dash h.limit-Signed in
    let at_op = op-append m.op (h.after_op ++ from_limit) (
      Spaces-Stops (λ c. b'=' == c) h.after_op from_limit equals-blank h.after_op-Spaces
        (limit_not (λ c. b'=' == c) equals-digit refl)) in
    let skip_op =
      skip-append h.after_op from_limit h.after_op-Spaces
        (limit_not is_blank blank-not_digit refl) in
    let after_is = append-nil h.after in
    let at_limit = signed-append m.limit h.after h.limit-Signed (
      subst (Stops goes_on) after_is
        (Spaces-Stops goes_on h.after [] goes_on-blank h.after-Spaces tt)) in
    let skip_after : skip h.after ≡ [] =
      ap skip (sym after_is) ∙ skip-append h.after [] h.after-Spaces tt in
    rw (h.whole, skip_before, at_head, skip_name, at_op, skip_op, at_limit, skip_after)
