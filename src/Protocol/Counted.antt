-- ===== src/Protocol/Counted.antt =====
-- What the calls of a recorder add up to.
use mathlib.Core.List.{append_assoc}
use loadtool.Prelude.{
  ℕ, List, [], ◌∷◌, ◌++◌, some, Bool, true, false, ◌&&◌, ◌||◌, not, if◌then◌else◌, ◌+◌, ◌==◌, ◌≡◌,
  refl, sym, ap, ap₂, ◌∙◌, arith, count, count-append, Bool-cases, inl, inr, ◌⊎◌,
}
use loadtool.Prelude.Int.{ℤ}
use loadtool.Metrics.Families.Samples.{Call, trend, add, rate}
use loadtool.Protocol.{
  invalid, Outcome, Families, Code, Error, is_set, is_nil, code_of, record_outcome, record_each,
  classify, any_link, is_dns, is_tls, is_deadline, is_closed, net_timed_out, is_dialling,
}

-- An operation failed if its module gave it a code, or it has an error.
abbrev pub is_failure : Outcome → Bool
is_failure out = is_set out.code || not (is_nil out.err)

-- Calls that add one operation, that count a failure, and that record a duration.
abbrev pub is_add : ℕ → Call → Bool
is_add c (add id n) = id == c && n == 1
is_add c other = false

abbrev pub is_rate : ℕ → Bool → Call → Bool
is_rate r true (rate id v) = id == r && v
is_rate r false (rate id v) = id == r && not v
is_rate r b other = false

abbrev pub is_trend : ℕ → Bool → Call → Bool
is_trend d true (trend id dur v) = id == d && v
is_trend d false (trend id dur v) = id == d && not v
is_trend d b other = false

is_set-classify : (e : Error) → is_set (classify e) ≡ not (is_nil e)
unfolding classify
is_set-classify [] = refl
is_set-classify (l ∷ e) =
    chosen (any_link is_dns (l ∷ e)) (any_link is_tls (l ∷ e))
      (any_link is_deadline (l ∷ e) || net_timed_out (l ∷ e)) (is_dialling (l ∷ e))
      (any_link is_closed (l ∷ e))
  where
    chosen :
        (x y z w v : Bool)
        → is_set (
            if x
            then Code.dns
            else if y
            then Code.tls
            else if z
            then Code.timeout
            else if w
            then Code.dial
            else if v
            then Code.closed
            else Code.bad_protocol)
          ≡ true
    chosen x y z w v = ground arith

is_set-code_of : (out : Outcome) → is_set (code_of out) ≡ is_failure out
unfolding code_of
is_set-code_of out = made (Bool-cases (is_set out.code)) out.err out.sent
  where
    made :
        (is_set out.code ≡ true) ⊎ (is_set out.code ≡ false)
        → (e : Error) (sent : Bool)
        → is_set
            (if is_set out.code || is_nil e then out.code else if sent then classify e else invalid)
          ≡ (is_set out.code || not (is_nil e))
    made (inl h) e sent = rw h h
    made (inr h) [] sent = rw h h
    made (inr h) (l ∷ e) true = rw h (is_set-classify (l ∷ e))
    made (inr h) (l ∷ e) false = rw h

abbrev pub one : Bool → ℕ
one b = if b then 1 else 0

-- The calls of one operation.
calls_of : ℕ → ℕ → ℕ → ℤ → Bool → Bool → Bool → List Call
calls_of c r d dur live sent fail =
    if live
    then (if sent then trend d dur (not fail) ∷ [] else []) ++ (add c 1 ∷ []) ++ (rate r fail ∷ [])
    else []

-- Operations, failures, successes, and durations of both.
abbrev pub Tallied : ℕ → ℕ → ℕ → List Call → ℕ → ℕ → ℕ → ℕ → ℕ → Type 0
Tallied c r d calls n bad good timed timed_bad =
    (count (is_add c) calls ≡ n)
    × (count (is_rate r true) calls ≡ bad)
    × (count (is_rate r false) calls ≡ good)
    × (count (is_trend d true) calls ≡ timed)
    × (count (is_trend d false) calls ≡ timed_bad)

calls_of-Tallied :
    (c r d : ℕ) (dur : ℤ) (live sent fail : Bool)
    → Tallied c r d
        (calls_of c r d dur live sent fail)
        (one (live && true))
        (one (live && fail))
        (one (live && not fail))
        (one (live && (sent && not fail)))
        (one (live && (sent && fail)))
unfolding calls_of
calls_of-Tallied c r d dur false sent fail = (refl, refl, refl, refl, refl)
calls_of-Tallied c r d dur true true true = ground arith
calls_of-Tallied c r d dur true true false = ground arith
calls_of-Tallied c r d dur true false true = ground arith
calls_of-Tallied c r d dur true false false = ground arith

record_outcome_calls :
    (f : Families) (c r d : ℕ) (live : Bool) (out : Outcome)
    → f.count ≡ some c
    → f.failed ≡ some r
    → f.duration ≡ some d
    → (record_outcome live f out).1 ≡ calls_of c r d out.duration live out.sent (is_failure out)
unfolding record_outcome calls_of
record_outcome_calls f c r d live out hc hr hd = rw (hc, hr, hd, is_set-code_of out)

-- How many of the operations there are of a kind, of those whose context was live.
abbrev pub of_kind : (Outcome → Bool) → List (Bool × Outcome) → ℕ
of_kind p outs = count (λ (o : Bool × Outcome). o.0 && p o.1) outs

count-calls :
    (p : Call → Bool) (xs ys zs : List Call) (n m : ℕ)
    → xs ≡ zs
    → count p zs ≡ n
    → count p ys ≡ m
    → count p (xs ++ ys) ≡ n + m
count-calls p xs ys zs n m same first later = rw (same, count-append p zs ys, first, later)

-- The values that are recorded in a trend as successful, or as failed.
abbrev pub value_of : ℕ → Bool → Call → List ℤ
value_of d b (trend id dur v) = if id == d && (if b then v else not v) then dur ∷ [] else []
value_of d b other = []

abbrev pub values : ℕ → Bool → List Call → List ℤ
values d b [] = []
values d b (x ∷ xs) = value_of d b x ++ values d b xs

-- The durations of the sent operations whose context was live, of those that failed or did not.
abbrev pub sent_duration : Bool → Bool × Outcome → List ℤ
sent_duration b (live, out) =
    if live && (out.sent && (if b then not (is_failure out) else is_failure out))
    then out.duration ∷ []
    else []

abbrev pub durations : Bool → List (Bool × Outcome) → List ℤ
durations b [] = []
durations b (o ∷ outs) = sent_duration b o ++ durations b outs

values-append :
    (d : ℕ) (b : Bool) (xs ys : List Call) → values d b (xs ++ ys) ≡ values d b xs ++ values d b ys
values-append d b [] ys = refl
values-append d b (x ∷ xs) ys =
    ap (λ l. value_of d b x ++ l) (values-append d b xs ys)
    ∙ sym (append_assoc (value_of d b x) (values d b xs) (values d b ys))

calls_of-values :
    (c r d : ℕ) (dur : ℤ) (b live sent fail : Bool)
    → values d b (calls_of c r d dur live sent fail)
      ≡ (if live && (sent && (if b then not fail else fail)) then dur ∷ [] else [])
unfolding calls_of
calls_of-values c r d dur b false sent fail = refl
calls_of-values c r d dur b true false fail = refl
calls_of-values c r d dur true true true true = ground arith
calls_of-values c r d dur true true true false = ground arith
calls_of-values c r d dur false true true true = ground arith
calls_of-values c r d dur false true true false = ground arith

record_each-values :
    (f : Families) (c r d : ℕ) (b : Bool) (outs : List (Bool × Outcome))
    → f.count ≡ some c
    → f.failed ≡ some r
    → f.duration ≡ some d
    → values d b (record_each f outs) ≡ durations b outs
unfolding record_each
record_each-values f c r d b [] hc hr hd = refl
record_each-values f c r d b ((live, out) ∷ outs) hc hr hd =
    let calls = record_outcome_calls f c r d live out hc hr hd in
    let rest = record_each-values f c r d b outs hc hr hd in
    values-append d b (record_outcome live f out).1 (record_each f outs)
    ∙ ap₂ ◌++◌
        (ap (values d b) calls
          ∙ calls_of-values c r d out.duration b live out.sent (is_failure out))
        rest

record_each-counted :
    (f : Families) (c r d : ℕ) (outs : List (Bool × Outcome))
    → f.count ≡ some c
    → f.failed ≡ some r
    → f.duration ≡ some d
    → Tallied c r d
        (record_each f outs)
        (of_kind (λ o. true) outs)
        (of_kind is_failure outs)
        (of_kind (λ o. not (is_failure o)) outs)
        (of_kind (λ o. o.sent && not (is_failure o)) outs)
        (of_kind (λ o. o.sent && is_failure o) outs)
unfolding record_each
record_each-counted f c r d [] hc hr hd = (refl, refl, refl, refl, refl)
record_each-counted f c r d ((live, out) ∷ outs) hc hr hd =
    let calls = record_outcome_calls f c r d live out hc hr hd in
    let (a, b, g, t, s) = calls_of-Tallied c r d out.duration live out.sent (is_failure out) in
    let (ia, ib, ig, it, is) = record_each-counted f c r d outs hc hr hd in
    let step =
      λ (p : Call → Bool) (n m : ℕ)
          (first : count p (calls_of c r d out.duration live out.sent (is_failure out)) ≡ n)
          (later : count p (record_each f outs) ≡ m).
        count-calls p (record_outcome live f out).1 (record_each f outs)
          (calls_of c r d out.duration live out.sent (is_failure out)) n m calls first later in
    (step _ _ _ a ia, step _ _ _ b ib, step _ _ _ g ig, step _ _ _ t it, step _ _ _ s is)

-- What is recorded of a sequence of operations that name all three families: each operation whose
-- context has not ended is counted once, and once as failed or as not failed; it failed exactly if
-- its module gave it a code or it has an error. The durations recorded as successful are those of the
-- operations of these that were sent and did not fail, in their order, and the durations recorded as
-- failed those of the ones that were sent and failed. Of the other operations nothing is recorded.
pub record_each-Tallied :
    (f : Families) (c r d : ℕ) (outs : List (Bool × Outcome))
    → f.count ≡ some c
    → f.failed ≡ some r
    → f.duration ≡ some d
    → Tallied c r d
        (record_each f outs)
        (of_kind (λ o. true) outs)
        (of_kind is_failure outs)
        (of_kind (λ o. not (is_failure o)) outs)
        (of_kind (λ o. o.sent && not (is_failure o)) outs)
        (of_kind (λ o. o.sent && is_failure o) outs)
      × (values d true (record_each f outs) ≡ durations true outs)
      × (values d false (record_each f outs) ≡ durations false outs)
record_each-Tallied f c r d outs hc hr hd = (
  record_each-counted f c r d outs hc hr hd,
  record_each-values f c r d true outs hc hr hd,
  record_each-values f c r d false outs hc hr hd,
)
