-- ===== src/Script/Prepared.antt =====
-- The functions that a program prepared by WithExecs can run.
use Prim.Native.String.{String, compare}
use Prim.Native.Nat.{Ordering}
use text.Mathlib.Text.{◌==◌ as str_eq, is_eq}
use text.Mathlib.TextEquality.{path_by_compare}
use text.Mathlib.TextPositions.{compare_refl}
use loadtool.Prelude.{
  ◌≡◌, ◌⊎◌, ◌∙◌, Option, none, some, inl, inr, refl, sym, ap, subst, List, [], ◌∷◌, ◌++◌, Bool,
  true, false, ◌&&◌, ◌||◌, not, if◌then◌else◌, arith, Bool-cases,
}
use loadtool.Prelude.Result.{Result, ok, err, ok_inj, ◌>>=◌, ◌>>◌, >>=-eq-ok}
use loadtool.Script.{
  Program, has, distinct, missing, ExecError, compile_error, refuse_missing, with_distinct,
  with_execs, is_prepared,
}

pub same_text : (s t : String) → str_eq s t ≡ true → s ≡ t
same_text s t h = path_by_compare s t (ordering (compare s t) h)
  where
    ordering : (o : Ordering) → is_eq o ≡ true → o ≡ Ordering.eq
    ordering Ordering.lt h = absurd (cc h)
    ordering Ordering.eq h = refl
    ordering Ordering.gt h = absurd (cc h)

pub str_eq_self : (s : String) → str_eq s s ≡ true
str_eq_self s = let e = compare_refl s in rw e

has-append_left : (a b : List String) (n : String) → has a n ≡ true → has (a ++ b) n ≡ true
has-append_left [] b n h = absurd (cc h)
has-append_left (m ∷ a) b n h = ground (arith, has-append_left a b n)

has-append_last : (a : List String) (n : String) → has (a ++ (n ∷ [])) n ≡ true
has-append_last [] n = let e = str_eq_self n in rw e
has-append_last (m ∷ a) n = ground (arith, has-append_last a n)

-- The list of distinct names after one more name.
abbrev extended : List String → String → List String
extended execs m =
    if not (str_eq m "default") && not (has execs m) then execs ++ (m ∷ []) else execs

has-extended_old :
    (execs : List String) (m n : String) → has execs n ≡ true → has (extended execs m) n ≡ true
has-extended_old execs m n h = elim (Bool-cases (not (str_eq m "default") && not (has execs m))) [
  | inl new ↦ rw new (has-append_left execs (m ∷ []) n h)
  | inr old ↦ rw old h
]

has-extended_new :
    (execs : List String) (m : String)
    → str_eq m "default" ≡ false
    → has (extended execs m) m ≡ true
has-extended_new execs m named = elim (Bool-cases (has execs m)) [
  | inl there ↦ has-extended_old execs m m there
  | inr h ↦ rw (named, h) (has-append_last execs m)
]

has-distinct :
    (execs ns : List String) (n : String)
    → str_eq n "default" ≡ false
    → (has execs n || has ns n) ≡ true
    → has (distinct execs ns) n ≡ true
has-distinct execs [] n named h = ground arith
has-distinct execs (m ∷ ns) n named h =
    has-distinct (extended execs m) ns n named (elim (Bool-cases (has execs n)) [
      | inl old ↦ (let e = has-extended_old execs m n old in rw e)
      | inr new ↦ elim (Bool-cases (str_eq m n)) [
        | inl same ↦
            let e = same_text m n same in
            let there =
              subst (λ x. has (extended execs m) x ≡ true) e
                (has-extended_new execs m
                  (subst (λ x. str_eq x "default" ≡ false) (sym e) named)) in
            rw there
        | inr other ↦
            let later : has ns n ≡ true = ground arith in
            orb_right (has (extended execs m) n) (has ns n) later
      ]
    ])
  where
    orb_right : (a b : Bool) → b ≡ true → (a || b) ≡ true
    orb_right true b h = refl
    orb_right false b h = h

module _ {Failure : Type 0} where
  refused :
      {A : Type 0} (m : Option String) (r : Result (ExecError Failure) A) (a : A)
      → (refuse_missing m >> r) ≡ ok a
      → (m ≡ none) × (r ≡ ok a)
  refused none r a h = (refl, h)
  refused (some n) r a h = absurd (cc h)

  compile_error-eq-ok :
      {A : Type 0} (r : Result Failure A) (a : A) → compile_error r ≡ ok a → r ≡ ok a
  compile_error-eq-ok (ok b) a h = let e = ok_inj h in rw e refl
  compile_error-eq-ok (err e) a h = absurd (cc h)

has-exported :
    (exports ns : List String) (n : String)
    → missing exports ns ≡ none
    → has ns n ≡ true
    → has exports n ≡ true
has-exported exports [] n h there = absurd (cc there)
has-exported exports (m ∷ ns) n h there = elim (Bool-cases (has exports m)) [
  | inr out ↦ (let bad = rw out at h in absurd (cc bad))
  | inl there_is ↦ elim (Bool-cases (str_eq m n)) [
    | inl same ↦ subst (λ x. has exports x ≡ true) (same_text m n same) there_is
    | inr other ↦ has-exported exports ns n (rw there_is at h) (ground arith)
  ]
]

-- Every function that the program was prepared with can be run, if slices.Sort keeps the elements: a
-- VU with such an exec, or with the default export, is never refused as not prepared. Each of the
-- functions but the default one is among the exports that the code of the program has, and the new
-- code is what compiling that code for the prepared names gives.
pub with_execs-is_prepared :
    {Code Data Failure : Type 0} (sort : List String → List String)
    (exports : Code → Result Failure (List String))
    (compile : Code → List String → Result Failure Code) (p p' : Program Code Data)
    (names : List String)
    → ((xs : List String) (n : String) → has xs n ≡ true → has (sort xs) n ≡ true)
    → with_execs sort exports compile p names ≡ ok p'
    → (n : String) → (str_eq n "default" || has names n) ≡ true
    → (is_prepared p' n ≡ true)
      × ((str_eq n "default" ≡ true)
          ⊎ ((exported : List String) × (exports p.code ≡ ok exported)
              × (has exported n ≡ true)
              × (compile p.code p'.execs ≡ ok p'.code)))
unfolding with_execs
with_execs-is_prepared {Code} {Data} {Failure} sort exports compile p p' names keeps prepared n h =
    elim (Bool-cases (str_eq n "default")) [
      | inl default ↦ (rw default, inl default)
      | inr named ↦
          let wanted : has names n ≡ true = ground arith in
          let there : has (distinct [] names) n ≡ true = has-distinct [] names n named wanted in
          let (runs, exported) = kept (distinct [] names) prepared there in (runs, inr exported)
    ]
  where
    kept :
        (ds : List String)
        → with_distinct sort exports compile p ds ≡ ok p'
        → has ds n ≡ true
        → (is_prepared p' n ≡ true)
          × ((exported : List String) × (exports p.code ≡ ok exported)
              × (has exported n ≡ true)
              × (compile p.code p'.execs ≡ ok p'.code))
    kept [] e h = absurd (cc h)
    kept (d ∷ ds) e h =
        let sorted = sort (d ∷ ds) in
        let (exported, listed, e₁) =
          >>=-eq-ok (compile_error (exports p.code))
            (λ exported.
              refuse_missing (missing exported sorted)
              >> compile_error (compile p.code sorted)
              >>= λ code. ok (record p { code = code; execs = sorted }))
            e in
        let (code, checked, made) =
          >>=-eq-ok
            (refuse_missing (missing exported sorted) >> compile_error (compile p.code sorted))
            (λ code. ok (record p { code = code; execs = sorted })) e₁ in
        let (all_there, compiled) =
          refused (missing exported sorted) (compile_error (compile p.code sorted)) code checked in
        let execs_are : sorted ≡ p'.execs = ap (λ (q : Program Code Data). q.execs) (ok_inj made) in
        let code_is : code ≡ p'.code = ap (λ (q : Program Code Data). q.code) (ok_inj made) in
        let there : has p'.execs n ≡ true =
          subst (λ x. has x n ≡ true) execs_are (keeps (d ∷ ds) n h) in
        (
          ground arith,
          (
            exported,
            compile_error-eq-ok (exports p.code) exported listed,
            has-exported exported sorted n all_there (keeps (d ∷ ds) n h),
            subst (λ x. compile p.code x ≡ ok p'.code) execs_are
                (compile_error-eq-ok (compile p.code sorted) code compiled ∙ ap ok code_is),
          ),
        )
