-- ===== src/Ui/Redact/Masked.antt =====
-- Secrets in a text, before and after it is redacted.
use loadtool.Prelude.{
  ℕ, zero, suc, ◌-◌, ◌≤◌, ◌≡◌, refl, ap, ◌∙◌, subst, List, [], ◌∷◌, true, false, leb, le→leb, ◌==◌,
  ◌&&◌, ◌⊎◌, inl, inr, length, Bytes, starts_with, All, arith, Bool-cases,
}
use loadtool.Ui.Redact.{
  min_secret, insert_longest, keep_secrets, new_redactor, replace_from, replace_each, redact,
}

-- `w` occurs nowhere in the text.
abbrev pub Free : Bytes → Bytes → Type 0
Free w [] = starts_with w [] ≡ false
Free w (c ∷ s) = (starts_with w (c ∷ s) ≡ false) × Free w s

-- A secret that the mask can neither begin nor be part of.
abbrev pub Unstarred : Bytes → Type 0
Unstarred w = (1 ≤ length w) × All (λ c. (c == b'*') ≡ false) w

-- What begins with `w` behind a replacement began with it before: `w` holds no byte of a mask.
starts_with-replace_from :
    (w old s : Bytes)
    → All (λ c. (c == b'*') ≡ false) w
    → starts_with w (replace_from 0 old s) ≡ true
    → starts_with w s ≡ true
unfolding replace_from
starts_with-replace_from [] old s u h = refl
starts_with-replace_from (a ∷ w) old [] u h = h
starts_with-replace_from (a ∷ w) old (c ∷ s) (u, us) h =
    elim (Bool-cases (starts_with old (c ∷ s))) [
      | inl e ↦
          let h' : (a == b'*' && starts_with w (b'*' ∷ b'*' ∷ replace_from (length old - 1) old s))
              ≡ true =
            rw e at h in
          absurd (ground arith)
      | inr e ↦
          let h' : (a == c && starts_with w (replace_from 0 old s)) ≡ true = rw e at h in
          ground (arith, starts_with-replace_from w old s us)
    ]

-- Each occurrence of `w` begins where one of `old` does.
abbrev pub Covered : Bytes → Bytes → Bytes → Type 0
Covered w old [] = Unit
Covered w old (c ∷ s) =
    (starts_with w (c ∷ s) ≡ true → starts_with old (c ∷ s) ≡ true) × Covered w old s

Covered-self : (w s : Bytes) → Covered w w s
Covered-self w [] = tt
Covered-self w (c ∷ s) = (λ h. h, Covered-self w s)

Free-Covered : (w old s : Bytes) → Free w s → Covered w old s
Free-Covered w old [] f = tt
Free-Covered w old (c ∷ s) (f, fs) = (λ h. absurd (cc (f, h)), Free-Covered w old s fs)

starts_with_star : (w s : Bytes) → Unstarred w → starts_with w (b'*' ∷ s) ≡ false
starts_with_star [] s (h, u) = absurd (omega arith)
starts_with_star (a ∷ w) s (h, (u, us)) = rw u

starts_with_nil : (w : Bytes) → Unstarred w → starts_with w [] ≡ false
starts_with_nil [] (h, u) = absurd (omega arith)
starts_with_nil (a ∷ w) u = refl

-- A replacement of what covers `w` leaves none of it.
Free-replace_from :
    (w old s : Bytes) (skip : ℕ) → Unstarred w → Covered w old s → Free w (replace_from skip old s)
unfolding replace_from
Free-replace_from w old [] skip u f = starts_with_nil w u
Free-replace_from w old (c ∷ s) (suc skip) u f = Free-replace_from w old s skip u f.1
Free-replace_from w old (c ∷ s) zero u f =
    let masked = Free-replace_from w old s (length old - 1) u f.1 in
    let kept = Free-replace_from w old s 0 u f.1 in
    elim (Bool-cases (starts_with old (c ∷ s))) [
      | inl e ↦
          rw e (starts_with_star w _ u, (starts_with_star w _ u, (starts_with_star w _ u, masked)))
      | inr e ↦ rw e (head e, kept)
    ]
  where
    head : starts_with old (c ∷ s) ≡ false → starts_with w (c ∷ replace_from 0 old s) ≡ false
    head e = elim (Bool-cases (starts_with w (c ∷ replace_from 0 old s))) [
      | inr n ↦ n
      | inl y ↦
          let whole : replace_from 0 old (c ∷ s) ≡ c ∷ replace_from 0 old s = rw e in
          let before = starts_with-replace_from w old (c ∷ s) u.1 (rw whole y) in
          absurd (cc (e, f.0 before))
    ]

-- `w` is among the secrets.
abbrev pub Among : Bytes → List Bytes → Type 0
Among w [] = ⊥
Among w (v ∷ vs) = (w ≡ v) ⊎ Among w vs

Among-tail :
    {w s t : Bytes} (old new : List Bytes)
    → ((w ≡ s) ⊎ Among w old → Among w new)
    → (w ≡ s) ⊎ Among w (t ∷ old)
    → Among w (t ∷ new)
Among-tail old new ih (inl p) = inr (ih (inl p))
Among-tail old new ih (inr (inl p)) = inl p
Among-tail old new ih (inr (inr p)) = inr (ih (inr p))

Among-insert_longest :
    (w s : Bytes) (ss : List Bytes) → (w ≡ s) ⊎ Among w ss → Among w (insert_longest s ss)
unfolding insert_longest
Among-insert_longest w s [] h = h
Among-insert_longest w s (t ∷ ts) h =
    let later = Among-tail ts (insert_longest s ts) (λ q. Among-insert_longest w s ts q) h in
    elim (Bool-cases (leb (length t) (length s))) [ inl e ↦ rw e h | inr e ↦ rw e later ]

Among-keep_secrets :
    (w : Bytes) (ss : List Bytes) → Among w ss → min_secret ≤ length w → Among w (keep_secrets ss)
unfolding keep_secrets
Among-keep_secrets w [] h long = h
Among-keep_secrets w (s ∷ ss) (inl p) long =
    let test : leb min_secret (length s) ≡ true =
      le→leb _ _ (subst (λ x. min_secret ≤ length x) p long) in
    rw test (Among-insert_longest w s (keep_secrets ss) (inl p))
Among-keep_secrets w (s ∷ ss) (inr p) long =
    let ih = Among-keep_secrets w ss p long in
    elim (Bool-cases (leb min_secret (length s))) [
      | inl e ↦ rw e (Among-insert_longest w s (keep_secrets ss) (inr ih))
      | inr e ↦ rw e ih
    ]

Free-replace_each_kept :
    (w : Bytes) (vs : List Bytes) (s : Bytes) → Unstarred w → Free w s → Free w (replace_each vs s)
unfolding replace_each
Free-replace_each_kept w [] s u f = f
Free-replace_each_kept w (v ∷ vs) s u f =
    Free-replace_each_kept w vs (replace_from 0 v s) u
      (Free-replace_from w v s 0 u (Free-Covered w v s f))

Free-replace_each :
    (w : Bytes) (vs : List Bytes) (s : Bytes)
    → Unstarred w
    → Among w vs
    → Free w (replace_each vs s)
unfolding replace_each
Free-replace_each w [] s u h = absurd h
Free-replace_each w (v ∷ vs) s u (inl p) =
    Free-replace_each_kept w vs (replace_from 0 v s) u
      (Free-replace_from w v s 0 u (subst (λ x. Covered w x s) p (Covered-self w s)))
Free-replace_each w (v ∷ vs) s u (inr p) = Free-replace_each w vs (replace_from 0 v s) u p

-- A text that holds none of the secrets is left as it is.
replace_from-Free : (old s : Bytes) → Free old s → replace_from 0 old s ≡ s
unfolding replace_from
replace_from-Free old [] f = refl
replace_from-Free old (c ∷ s) (f, fs) = rw f (ap (λ t. c ∷ t) (replace_from-Free old s fs))

replace_each-Free : (vs : List Bytes) (s : Bytes) → All (λ v. Free v s) vs → replace_each vs s ≡ s
unfolding replace_each
replace_each-Free [] s f = refl
replace_each-Free (v ∷ vs) s (f, fs) =
    ap (replace_each vs) (replace_from-Free v s f) ∙ replace_each-Free vs s fs

-- A redacted text holds no secret of the redactor that has at least three bytes and no '*' among
-- them, whatever the other secrets are.
pub redact-Free :
    (secrets : List Bytes) (s w : Bytes)
    → Among w secrets
    → min_secret ≤ length w
    → All (λ c. (c == b'*') ≡ false) w
    → Free w (redact (new_redactor secrets) s)
unfolding redact new_redactor
redact-Free secrets s w among long clean =
    Free-replace_each w (keep_secrets secrets) s (omega arith, clean)
      (Among-keep_secrets w secrets among long)

-- A text that holds none of the kept secrets is left as it is.
pub redact_unchanged :
    (secrets : List Bytes) (s : Bytes)
    → All (λ v. Free v s) (new_redactor secrets).secrets
    → redact (new_redactor secrets) s ≡ s
unfolding redact
redact_unchanged secrets s f = replace_each-Free (new_redactor secrets).secrets s f
