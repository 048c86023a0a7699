-- ===== src/Runner/Run/Legal/Rules.antt =====
-- The calls of an action, put together as the action is.
use loadtool.Prelude.{◌≡◌, refl, sym, subst, ◌∙◌, [], ◌∷◌, ◌++◌, some, Bool, true, false}
use loadtool.Prelude.Result.{Result, ok, err}
use loadtool.Runner.Action.{Action, perform, value, effect, ◌>>>◌, deferring, continue}
use loadtool.Runner.Run.{Call, close_modules, is_ok}
use loadtool.Runner.Run.Legal.{Phase, ready, over, next, follow, follow-append}

-- The modules may be closed, and this ends the run; after a success, the run is prepared.
abbrev pub Closable : Phase → Type 0
Closable q = next q close_modules ≡ some over

abbrev pub To : Phase → Bool → Phase → Type 0
To p true q = q ≡ p
To p false q = Closable q

module _ {W E : Type 0} where
  -- From phase `p`, the calls of an action are legal, and lead to a phase that its success allows.
  pub record Leads {A : Type 0} (p : Phase) (m : Action W E Call A) (Q : Bool → Phase → Type 0)
      : Type 0 where
    pub leads : (w : W) → (q : Phase) × (follow p (m w).calls ≡ some q) × Q (is_ok (m w).result) q

  pub value-Leads :
      {A : Type 0} (p : Phase) (r : Result E A) (Q : Bool → Phase → Type 0)
      → ((b : Bool) → Q b p)
      → Leads p (value r) Q
  unfolding value
  value-Leads p r Q both = record { leads = λ w. (p, refl, both (is_ok r)) }

  pub perform-Leads :
      {A : Type 0} (p : Phase) (c : Bool → Call) (call : W → Result E A × W)
      (Q : Bool → Phase → Type 0)
      → ((b : Bool) → (q : Phase) × (next p (c b) ≡ some q) × Q b q)
      → Leads p (perform (λ r. c (is_ok r)) call) Q
  unfolding perform
  perform-Leads p c call Q each = record {
    leads = λ w. let (q, e, h) = each (is_ok (call w).0) in (q, rw e refl, h);
  }

  pub >>>-Leads :
      {A B : Type 0} (p : Phase) (m : Action W E Call A) (k : A → Action W E Call B)
      (Q R : Bool → Phase → Type 0)
      → Leads p m Q
      → ((a : A) (q : Phase) → Q true q → Leads q (k a) R)
      → ((q : Phase) → Q false q → R false q)
      → Leads p (m >>> k) R
  unfolding ◌>>>◌
  >>>-Leads {A} {B} p m k Q R first rest failed = record {
    leads = λ w. let (q, at_q, h) = first.leads w in after w (m w).result q at_q h;
  }
    where
      after :
          (w : W) (r : Result E A) (q : Phase)
          → follow p (m w).calls ≡ some q
          → Q (is_ok r) q
          → (q' : Phase) × (follow p ((m w).calls ++ (continue r k (m w).world).calls) ≡ some q')
            × R (is_ok (continue r k (m w).world).result) q'
      after w (ok a) q at_q h =
          let (q', at_q', h') = (rest a q h).leads (m w).world in
          (q', follow-append p q (m w).calls (k a (m w).world).calls at_q ∙ at_q', h')
      after w (err e) q at_q h = (q, follow-append p q (m w).calls [] at_q, failed q h)

  pub deferring-Leads :
      {A : Type 0} (p : Phase) (last : W → W) (c : Call) (m : Action W E Call A)
      (Q R : Bool → Phase → Type 0)
      → Leads p m Q
      → ((b : Bool) (q : Phase) → Q b q → (q' : Phase) × (next q c ≡ some q') × R b q')
      → Leads p (deferring last c m) R
  unfolding deferring
  deferring-Leads p last c m Q R inner closes = record {
    leads = λ w.
        let (q, at_q, h) = inner.leads w in
        let (q', e, h') = closes (is_ok (m w).result) q h in
        (q', follow-append p q (m w).calls (c ∷ []) at_q ∙ rw e refl, h');
  }

  pub call-Leads :
      {A : Type 0} (p q r : Phase) (c : Bool → Call) (call : W → Result E A × W)
      → next p (c true) ≡ some q
      → next p (c false) ≡ some r
      → Closable r
      → Leads p (perform (λ r. c (is_ok r)) call) (To q)
  call-Leads p q r c call good bad closes = perform-Leads p c call (To q) (λ b.
      elim b as (λ b. (s : Phase) × (next p (c b) ≡ some s) × To q b s) [
        | true ↦ (q, good, refl)
        | false ↦ (r, bad, closes)
      ])

  pub ready-Leads : {A : Type 0} (r : Result E A) → Leads ready (value r) (To ready)
  ready-Leads r =
      value-Leads ready r (To ready)
        (λ b. elim b as (λ b. To ready b ready) [ true ↦ refl | false ↦ refl ])

  pub done-Leads : {A : Type 0} (p : Phase) (a : A) → Leads p (value (ok a)) (To p)
  unfolding value
  done-Leads p a = record { leads = λ w. (p, refl, refl) }

  pub weaken-Leads :
      {A : Type 0} (p : Phase) (m : Action W E Call A) (Q R : Bool → Phase → Type 0)
      → Leads p m Q
      → ((b : Bool) (q : Phase) → Q b q → R b q)
      → Leads p m R
  weaken-Leads p m Q R h wider = record {
    leads = λ w. let (q, at_q, holds) = h.leads w in (q, at_q, wider (is_ok (m w).result) q holds);
  }

  -- An action that goes on from a phase that is known.
  pub then-Leads :
      {A B : Type 0} (p q r : Phase) (m : Action W E Call A) (k : A → Action W E Call B)
      → Leads p m (To q)
      → ((a : A) → Leads q (k a) (To r))
      → Leads p (m >>> k) (To r)
  then-Leads p q r m k first rest =
      >>>-Leads p m k (To q) (To r) first
        (λ a s e. subst (λ s. Leads s (k a) (To r)) (sym e) (rest a)) (λ s closes. closes)

pub effect-Leads :
    {W : Type 0} (E : Type 0) (p : Phase) (f : W → W) (Q : Bool → Phase → Type 0)
    → Q true p
    → Leads {E = E} p (effect f) Q
unfolding effect
effect-Leads E p f Q h = record { leads = λ w. (p, refl, h) }
