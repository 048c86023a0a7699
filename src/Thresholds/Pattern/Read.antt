-- ===== src/Thresholds/Pattern/Read.antt =====
-- A text that the scan has read, taken apart as in the language.
use mathlib.Core.List.{append_assoc, append-nil}
use loadtool.Prelude.{
  ◌≡◌, ◌≢◌, inl, inr, refl, sym, ap, ap₂, subst, ◌∙◌, List, [], ◌∷◌, ◌++◌, Option, none, some,
  Bytes, codes, All, some_inj,
}
use loadtool.Thresholds.{Aggregate, p, Op}
use loadtool.Thresholds.Pattern.{
  Match, is_blank, skip, strip, first_of, or_next, names, operators, number, signed, percentile_end,
  head_of, head, finish, match_limit, match_op, match_expr, ◌>?◌, span,
}
use loadtool.Thresholds.Pattern.Grammar.{Spaces, Number, Head, Spelled, aggregate_text, op_text}
use loadtool.Thresholds.Pattern.Scanned.{
  span-All, span-splits, strip-splits, number-Number, signed-Signed,
}

-- What a chain of parts that succeeds has passed.
pub >?-eq-some {ℓ κ} :
    {A : Type ℓ} {B : Type κ} (o : Option A) (after : A → Option B) (b : B)
    → o >? after ≡ some b
    → (a : A) × (o ≡ some a) × (after a ≡ some b)
>?-eq-some none after b h = absurd (cc h)
>?-eq-some (some a) after b h = (a, refl, h)

-- The blanks before the rest.
skipped : (s : Bytes) → (left : Bytes) × Spaces left × (s ≡ left ++ skip s)
skipped s = ((span is_blank s).0, span-All is_blank s, span-splits is_blank s)

-- What first_of finds is one of the words.
first_of-word {ℓ} :
    {A : Type ℓ} (P : Bytes → A → Type 0) (ws : List (Bytes × A))
    → All (λ (w : Bytes × A). P w.0 w.1) ws
    → (s : Bytes) (a : A) (r : Bytes) → first_of ws s ≡ some (a, r)
    → (w : Bytes) × P w a × (s ≡ w ++ r)
first_of-word P [] all s a r h = absurd (cc h)
first_of-word {A = A} P (w ∷ ws) all s a r h =
    found (λ h. first_of-word P ws all.1 s a r h) (strip w.0 s) refl h
  where
    found :
        (first_of ws s ≡ some (a, r) → (w : Bytes) × P w a × (s ≡ w ++ r))
        → (o : Option Bytes) → strip w.0 s ≡ o
        → or_next w.1 o (first_of ws s) ≡ some (a, r)
        → (w : Bytes) × P w a × (s ≡ w ++ r)
    found next none e h = next h
    found next (some t) e h =
        let a_is : w.1 ≡ a = ap (λ (m : A × Bytes). m.0) (some_inj h) in
        let r_is : t ≡ r = ap (λ (m : A × Bytes). m.1) (some_inj h) in
        let here : P w.0 a = rw (sym a_is) all.0 in
        (w.0, here, strip-splits w.0 s t e ∙ ap (λ t. w.0 ++ t) r_is)

abbrev IsName : Bytes → Aggregate → Type 0
IsName w a = (a ≢ p) × (w ≡ aggregate_text a)

names-IsName : All (λ (w : Bytes × Aggregate). IsName w.0 w.1) names
names-IsName = (
  (λ e. absurd (cc e), refl),
  (
    (λ e. absurd (cc e), refl),
    (
      (λ e. absurd (cc e), refl),
      ((λ e. absurd (cc e), refl), ((λ e. absurd (cc e), refl), ((λ e. absurd (cc e), refl), tt))),
    ),
  ),
)

-- The operator at the beginning of a text.
op-text : (s : Bytes) (o : Op) (r : Bytes) → first_of operators s ≡ some (o, r) → s ≡ op_text o ++ r
op-text s o r h =
    let (w, e, whole) =
      first_of-word (λ w o. w ≡ op_text o) operators
        (refl, (refl, (refl, (refl, (refl, (refl, tt)))))) s o r h in
    rw (sym e) whole

pub regroup : (a b c d e : Bytes) → (a ++ (b ++ (c ++ d))) ++ e ≡ a ++ (b ++ (c ++ (d ++ e)))
regroup a b c d e = simp append_assoc

head-Head :
    (s : Bytes) (a : Aggregate) (q r : Bytes)
    → head s ≡ some ((a, q), r)
    → (name : Bytes) × Head a q name × (s ≡ name ++ r)
head-Head s a q r h = found (first_of names s) refl h
  where
    found :
        (o : Option (Aggregate × Bytes))
        → first_of names s ≡ o
        → head_of o s ≡ some ((a, q), r)
        → (name : Bytes) × Head a q name × (s ≡ name ++ r)
    found (some (b, t)) e h =
        let b_is : b ≡ a = ap (λ (m : (Aggregate × Bytes) × Bytes). m.0.0) (some_inj h) in
        let q_is : [] ≡ q = ap (λ (m : (Aggregate × Bytes) × Bytes). m.0.1) (some_inj h) in
        let r_is : t ≡ r = ap (λ (m : (Aggregate × Bytes) × Bytes). m.1) (some_inj h) in
        let (w, (other, text), whole) = first_of-word IsName names names-IsName s b t e in
        let other' : a ≢ p = rw (sym b_is) other in
        let text' : w ≡ aggregate_text a = rw (sym b_is) text in
        (w, inl (other', sym q_is, text'), whole ∙ ap (λ t. w ++ t) r_is)
    found none e h =
        let (t, at_p, h₁) =
          >?-eq-some (strip (codes "p(") s) (λ t. number (skip t) >? percentile_end) ((a, q), r)
            h in
        let ((n, t'), at_n, h₂) = >?-eq-some (number (skip t)) percentile_end ((a, q), r) h₁ in
        let (t'', at_end, h₃) =
          >?-eq-some (strip (codes ")") (skip t')) (λ rest. some ((p, n), rest)) ((a, q), r) h₂ in
        let a_is : p ≡ a = ap (λ (m : (Aggregate × Bytes) × Bytes). m.0.0) (some_inj h₃) in
        let q_is : n ≡ q = ap (λ (m : (Aggregate × Bytes) × Bytes). m.0.1) (some_inj h₃) in
        let r_is : t'' ≡ r = ap (λ (m : (Aggregate × Bytes) × Bytes). m.1) (some_inj h₃) in
        let (left, left-Spaces, t_is) = skipped t in
        let (n-Number, skip_t_is) = number-Number (skip t) n t' at_n in
        let (right, right-Spaces, t'_is) = skipped t' in
        let q-Number : Number q = subst Number q_is n-Number in
        let inner : t ≡ left ++ (q ++ (right ++ (codes ")" ++ r))) =
          t_is
          ∙ ap (λ x. left ++ x)
              (skip_t_is
                ∙ ap₂ (λ x y. x ++ y) q_is
                    (t'_is
                      ∙ ap (λ x. right ++ x)
                          (strip-splits (codes ")") (skip t') t'' at_end
                            ∙ ap (λ x. codes ")" ++ x) r_is))) in
        (
          codes "p(" ++ (left ++ (q ++ (right ++ codes ")"))),
          inr (left, right, sym a_is, left-Spaces, q-Number, right-Spaces, refl),
          strip-splits (codes "p(") s t at_p
              ∙ ap (λ x. codes "p(" ++ x) (inner ∙ sym (regroup left q right (codes ")") r)),
        )

finish-eq-some : (s : Bytes) (m m' : Match) → finish s m ≡ some m' → (s ≡ []) × (m ≡ m')
finish-eq-some [] m m' h = (refl, some_inj h)
finish-eq-some (c ∷ s) m m' h = absurd (cc h)

pub match_expr-Spelled : (s : Bytes) (m : Match) → match_expr s ≡ some m → Spelled m s
unfolding match_expr
match_expr-Spelled s m h =
    let (before, before-Spaces, s_is) = skipped s in
    let (((a, q), r), at_head, h₁) = >?-eq-some (head (skip s)) match_op m h in
    let (name, name-Head, skip_s_is) = head-Head (skip s) a q r at_head in
    let (after_name, after_name-Spaces, r_is) = skipped r in
    let ((o, r'), at_op, h₂) = >?-eq-some (first_of operators (skip r)) (match_limit (a, q)) m h₁ in
    let skip_r_is = op-text (skip r) o r' at_op in
    let (after_op, after_op-Spaces, r'_is) = skipped r' in
    let ((n, e), at_limit, h₃) =
      >?-eq-some (signed (skip r'))
        (λ r. finish (skip r.1) (record { aggregate = a; percent = q; op = o; limit = r.0 })) m
        h₂ in
    let (n-Signed, skip_r'_is) = signed-Signed (skip r') n e at_limit in
    let (after, after-Spaces, e_is) = skipped e in
    let (ends, m_is) =
      finish-eq-some (skip e) (record { aggregate = a; percent = q; op = o; limit = n }) m h₃ in
    let e_is' : e ≡ after = e_is ∙ ap (λ x. after ++ x) ends ∙ append-nil after in
    let found : Spelled (record { aggregate = a; percent = q; op = o; limit = n }) s = record {
      before = before;
      name = name;
      after_name = after_name;
      after_op = after_op;
      after = after;
      before-Spaces = before-Spaces;
      name-Head = name-Head;
      after_name-Spaces = after_name-Spaces;
      after_op-Spaces = after_op-Spaces;
      limit-Signed = n-Signed;
      after-Spaces = after-Spaces;
      whole =
          s_is
          ∙ ap (λ x. before ++ x)
              (skip_s_is
                ∙ ap (λ x. name ++ x)
                    (r_is
                      ∙ ap (λ x. after_name ++ x)
                          (skip_r_is
                            ∙ ap (λ x. op_text o ++ x)
                                (r'_is
                                  ∙ ap (λ x. after_op ++ x)
                                      (skip_r'_is ∙ ap (λ x. n ++ x) e_is')))));
    } in
    subst (λ m. Spelled m s) m_is found
