-- ===== src/Prelude/Result.antt =====
-- A value and an error in one result: Go's `(T, error)` where the value is used only without error.
use mathlib.Core.Path.{◌≡◌, refl}
use mathlib.Core.Bool.{Bool, true, false}
use mathlib.Core.Option.{Option, none, some}
use mathlib.Core.Logic.{◌⊎◌, inl, inr}

pub data Result {ℓ} (E : Type 0) (T : Type ℓ) : Type ℓ where
  err : E → Result E T
  ok : T → Result E T

-- The code after a call that may fail: an error is returned as it is.
infixl 5 ◌>>=◌
abbrev pub ◌>>=◌ {ℓ κ} :
    {E : Type 0} {T : Type ℓ} {U : Type κ} → Result E T → (T → Result E U) → Result E U
err why >>= after = err why
ok got >>= after = after got

-- The same, for a check that has no value.
infixl 5 ◌>>◌
abbrev pub ◌>>◌ {ℓ} : {E : Type 0} {U : Type ℓ} → Result E (Unit {0}) → Result E U → Result E U
check >> after = check >>= λ done. after

-- `if bad { return err }`
abbrev pub refuse : {E : Type 0} → Bool → E → Result E (Unit {0})
refuse true e = err e
refuse false e = ok tt

-- A value that may be missing, with the error for that case.
abbrev pub some_or {ℓ} : {E : Type 0} {T : Type ℓ} → E → Option T → Result E T
some_or e none = err e
some_or e (some v) = ok v

-- What succeeds has passed its first call.
pub >>=-eq-ok {ℓ κ} :
    {E : Type 0} {T : Type ℓ} {U : Type κ} (call : Result E T) (after : T → Result E U) {u : U}
    → call >>= after ≡ ok u
    → (got : T) × (call ≡ ok got) × (after got ≡ ok u)
>>=-eq-ok (err why) after passed = absurd (cc passed)
>>=-eq-ok (ok got) after passed = (got, refl, passed)

pub ok_inj {ℓ} : {E : Type 0} {T : Type ℓ} {a b : T} → ◌≡◌ {A = Result E T} (ok a) (ok b) → a ≡ b
ok_inj h = cc h

pub refuse-eq-ok : {E : Type 0} (b : Bool) (e : E) {u : Unit {0}} → refuse b e ≡ ok u → b ≡ false
refuse-eq-ok true e h = cc
refuse-eq-ok false e h = refl

pub some_or-eq-ok {ℓ} :
    {E : Type 0} {T : Type ℓ} (e : E) (o : Option T) {v : T} → some_or e o ≡ ok v → o ≡ some v
some_or-eq-ok e none h = cc
some_or-eq-ok e (some w) h = cc

pub Result-cases {ℓ} :
    {E : Type 0} {A : Type ℓ} (r : Result E A) → ((a : A) × (r ≡ ok a)) ⊎ ((e : E) × (r ≡ err e))
Result-cases (ok a) = inl (a, refl)
Result-cases (err e) = inr (e, refl)

-- Guards that were passed, before what they guard.
pub guard-eq-ok {ℓ} :
    {E : Type 0} {T : Type ℓ} (b : Bool) (e : E) (r : Result E T) {v : T}
    → refuse b e >> r ≡ ok v
    → (b ≡ false) × (r ≡ ok v)
guard-eq-ok true e r h = absurd (cc h)
guard-eq-ok false e r h = (refl, h)

pub guards-eq-ok {ℓ} :
    {E : Type 0} {T : Type ℓ} (a b : Bool) (e f : E) (r : Result E T) {v : T}
    → refuse a e >> refuse b f >> r ≡ ok v
    → (a ≡ false) × (b ≡ false) × (r ≡ ok v)
guards-eq-ok true b e f r h = absurd (cc h)
guards-eq-ok false true e f r h = absurd (cc h)
guards-eq-ok false false e f r h = (refl, refl, h)

pub three_guards-eq-ok {ℓ} :
    {E : Type 0} {T : Type ℓ} (a b c : Bool) (e f g : E) (r : Result E T) {v : T}
    → refuse a e >> refuse b f >> refuse c g >> r ≡ ok v
    → (a ≡ false) × (b ≡ false) × (c ≡ false) × (r ≡ ok v)
three_guards-eq-ok true b c e f g r h = absurd (cc h)
three_guards-eq-ok false true c e f g r h = absurd (cc h)
three_guards-eq-ok false false true e f g r h = absurd (cc h)
three_guards-eq-ok false false false e f g r h = (refl, refl, refl, h)
