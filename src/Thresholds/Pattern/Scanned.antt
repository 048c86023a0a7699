-- ===== src/Thresholds/Pattern/Scanned.antt =====
-- The scans of single parts of an expression.
use mathlib.Core.List.{append_assoc}
use loadtool.Prelude.{
  ◌≡◌, refl, sym, ap, ap₂, subst, ◌∙◌, inl, inr, ℕ, [], ◌∷◌, ◌++◌, Option, none, some, Bool, true,
  false, ◌||◌, ◌==◌, arith, Bytes, codes, All, Bool-cases, some_inj,
}
use loadtool.Thresholds.Pattern.{
  is_blank, is_digit, span, skip, strip, fraction_of, fraction, number_of, number, with_sign,
  signed_of, signed, ◌>?◌,
}
use loadtool.Thresholds.Pattern.Grammar.{Spaces, Digits, Fraction, Number, Signed}

-- The text does not go on with a byte that passes.
abbrev pub Stops : (ℕ → Bool) → Bytes → Type 0
Stops ok [] = Unit
Stops ok (c ∷ s) = ok c ≡ false

pub span-All : (ok : ℕ → Bool) (s : Bytes) → All (λ c. ok c ≡ true) (span ok s).0
span-All ok [] = tt
span-All ok (c ∷ s) = elim (Bool-cases (ok c)) [ inl h ↦ rw h (h, span-All ok s) | inr h ↦ rw h tt ]

pub span-splits : (ok : ℕ → Bool) (s : Bytes) → s ≡ (span ok s).0 ++ (span ok s).1
span-splits ok [] = refl
span-splits ok (c ∷ s) = elim (Bool-cases (ok c)) [
  | inl h ↦ rw h (ap (λ t. c ∷ t) (span-splits ok s))
  | inr h ↦ rw h refl
]

pub span-append :
    (ok : ℕ → Bool) (a b : Bytes)
    → All (λ c. ok c ≡ true) a
    → Stops ok b
    → span ok (a ++ b) ≡ (a, b)
span-append ok [] [] h stop = refl
span-append ok [] (c ∷ b) h stop = rw stop refl
span-append ok (c ∷ a) b h stop = rw (h.0, span-append ok a b h.1 stop)

pub skip-append : (a b : Bytes) → Spaces a → Stops is_blank b → skip (a ++ b) ≡ b
skip-append a b h stop = ap (λ (r : Bytes × Bytes). r.1) (span-append is_blank a b h stop)

pub strip-splits : (v s r : Bytes) → strip v s ≡ some r → s ≡ v ++ r
strip-splits [] s r h = some_inj h
strip-splits (v ∷ vs) [] r h = absurd (cc h)
strip-splits (v ∷ vs) (c ∷ s) r h = elim (Bool-cases (v == c)) [
  | inl same ↦
      let e : v ≡ c = ground arith in
      let h' : strip vs s ≡ some r = rw same at h in let rest = strip-splits vs s r h' in cc
  | inr other ↦ let bad = rw other at h in cc
]

-- The digits at the beginning, with what follows them.
digits :
    (s : Bytes) (d : ℕ) (ds : Bytes)
    → (span is_digit s).0 ≡ d ∷ ds
    → Digits (d ∷ ds) × (s ≡ (d ∷ ds) ++ (span is_digit s).1)
digits s d ds h =
    let all : All (λ c. is_digit c ≡ true) (d ∷ ds) =
      subst (All (λ c. is_digit c ≡ true)) h (span-All is_digit s) in
    let whole : s ≡ (d ∷ ds) ++ (span is_digit s).1 =
      span-splits is_digit s ∙ ap (λ t. t ++ (span is_digit s).1) h in
    ((d, ds, refl, all.0, all.1), whole)

pub fraction-Fraction :
    (s : Bytes) → Fraction (fraction s).0 × (s ≡ (fraction s).0 ++ (fraction s).1)
fraction-Fraction [] = (inl refl, refl)
fraction-Fraction (c ∷ s) = elim (Bool-cases (c == b'.')) [
  | inl point ↦ rw point (fraction_of-Fraction (span is_digit s).0 refl (ground arith))
  | inr other ↦ rw other (inl refl, refl)
]
  where
    fraction_of-Fraction :
        (ds : Bytes)
        → (span is_digit s).0 ≡ ds
        → c ≡ b'.'
        → Fraction (fraction_of ds (span is_digit s).1 (c ∷ s)).0
          × (c ∷ s
              ≡ (fraction_of ds (span is_digit s).1 (c ∷ s)).0
                ++ (fraction_of ds (span is_digit s).1 (c ∷ s)).1)
    fraction_of-Fraction [] e point = (inl refl, refl)
    fraction_of-Fraction (d ∷ ds) e point =
        let (some_digits, whole) = digits s d ds e in (inr (d ∷ ds, some_digits, refl), cc)

-- What number takes is a number.
pub number-Number : (s n r : Bytes) → number s ≡ some (n, r) → Number n × (s ≡ n ++ r)
number-Number s n r h = number_of-Number (span is_digit s).0 refl h
  where
    number_of-Number :
        (ds : Bytes)
        → (span is_digit s).0 ≡ ds
        → number_of ds (span is_digit s).1 ≡ some (n, r)
        → Number n × (s ≡ n ++ r)
    number_of-Number [] e h = absurd (cc h)
    number_of-Number (d ∷ ds) e h =
        let (some_digits, whole) = digits s d ds e in
        let rest = (span is_digit s).1 in
        let (f, splits) = fraction-Fraction rest in
        let n_is : (d ∷ ds) ++ (fraction rest).0 ≡ n =
          ap (λ (m : Bytes × Bytes). m.0) (some_inj h) in
        let r_is : (fraction rest).1 ≡ r = ap (λ (m : Bytes × Bytes). m.1) (some_inj h) in
        (
          (d ∷ ds, (fraction rest).0, some_digits, f, sym n_is),
          whole
              ∙ ap (λ t. (d ∷ ds) ++ t) splits
              ∙ sym (append_assoc (d ∷ ds) (fraction rest).0 (fraction rest).1)
              ∙ ap₂ (λ a b. a ++ b) n_is r_is,
        )

pub signed-Signed : (s n r : Bytes) → signed s ≡ some (n, r) → Signed n × (s ≡ n ++ r)
signed-Signed s n r h = signed_of-Signed (strip (codes "-") s) refl h
  where
    signed_of-Signed :
        (o : Option Bytes)
        → strip (codes "-") s ≡ o
        → signed_of o s ≡ some (n, r)
        → Signed n × (s ≡ n ++ r)
    signed_of-Signed none e h = let (m, whole) = number-Number s n r h in (inl m, whole)
    signed_of-Signed (some t) e h = after_sign (number t) refl h
      where
        after_sign :
            (o : Option (Bytes × Bytes))
            → number t ≡ o
            → (o >? with_sign) ≡ some (n, r)
            → Signed n × (s ≡ n ++ r)
        after_sign none e' h = absurd (cc h)
        after_sign (some (m, rest)) e' h =
            let (m-Number, whole) = number-Number t m rest e' in
            let n_is : b'-' ∷ m ≡ n = ap (λ (m : Bytes × Bytes). m.0) (some_inj h) in
            let r_is : rest ≡ r = ap (λ (m : Bytes × Bytes). m.1) (some_inj h) in
            (
              inr (m, m-Number, sym n_is),
              strip-splits (codes "-") s t e
                  ∙ ap (λ t. b'-' ∷ t) whole
                  ∙ ap₂ (λ a b. a ++ b) n_is r_is,
            )

-- The bytes that a number could go on with.
abbrev pub goes_on : ℕ → Bool
goes_on c = is_digit c || c == b'.'

goes_on-digit : (r : Bytes) → Stops goes_on r → Stops is_digit r
goes_on-digit [] stop = tt
goes_on-digit (c ∷ r) stop = ground arith

fraction-append : (f r : Bytes) → Fraction f → Stops goes_on r → fraction (f ++ r) ≡ (f, r)
fraction-append f [] (inl e) stop = rw e
fraction-append f (c ∷ r) (inl e) stop =
    let other : (c == b'.') ≡ false = ground arith in rw (e, other)
fraction-append f r (inr (ds, (d, ds', e', h, hs), e)) stop =
    let taken = span-append is_digit (d ∷ ds') r (h, hs) (goes_on-digit r stop) in rw (e, e', taken)

pub number-append : (n r : Bytes) → Number n → Stops goes_on r → number (n ++ r) ≡ some (n, r)
number-append n r (ds, f, (d, ds', e', h, hs), f-Fraction, e) stop =
    let whole : n ++ r ≡ (d ∷ ds') ++ (f ++ r) =
      ap (λ t. t ++ r) (e ∙ ap (λ t. t ++ f) e') ∙ append_assoc (d ∷ ds') f r in
    let taken = span-append is_digit (d ∷ ds') (f ++ r) (h, hs) (point f f-Fraction) in
    rw (whole, taken, fraction-append f r f-Fraction stop, e, e')
  where
    point : (f : Bytes) → Fraction f → Stops is_digit (f ++ r)
    point [] h = goes_on-digit r stop
    point (c ∷ f) (inl e) = absurd (cc e)
    point (c ∷ f) (inr (ds, h, e)) = let same : c ≡ b'.' = cc e in rw same

-- The first byte of a number is a digit.
pub Number-starts :
    (n r : Bytes) → Number n → (d : ℕ) × (t : Bytes) × (n ++ r ≡ d ∷ t) × (is_digit d ≡ true)
Number-starts n r (ds, f, (d, ds', e', h, hs), f-Fraction, e) =
    (d, (ds' ++ f) ++ r, ap (λ t. t ++ r) (e ∙ ap (λ t. t ++ f) e'), h)

pub signed-append : (n r : Bytes) → Signed n → Stops goes_on r → signed (n ++ r) ≡ some (n, r)
signed-append n r (inl h) stop =
    let (d, t, whole, digit) = Number-starts n r h in
    let none_at : strip (codes "-") (n ++ r) ≡ none =
      let other : (b'-' == d) ≡ false = ground arith in rw (whole, other) in
    rw (none_at, number-append n r h stop)
signed-append n r (inr (m, h, e)) stop = rw (e, number-append m r h stop)
