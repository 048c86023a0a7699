-- ===== src/Runner/Action.antt =====
-- What a run does one thing after another: an action reads and changes the world outside, lists the
-- calls that it makes, and ends in a value or an error. A deferred call is made whatever the result.
use loadtool.Prelude.{List, [], ◌∷◌, ◌++◌}
use loadtool.Prelude.Result.{Result, ok, err}

pub record Done (W E C A : Type 0) : Type 0 where
  pub result : Result E A
  pub world : W
  pub calls : List C

abbrev pub Action : Type 0 → Type 0 → Type 0 → Type 0 → Type 0
Action W E C A = W → Done W E C A

module _ {W E C : Type 0} where
  -- A call, listed with its result.
  abbrev pub logged : {A : Type 0} → (Result E A → C) → Result E A × W → Done W E C A
  logged c (r, w) = record { result = r; world = w; calls = c r ∷ [] }

  unfoldable pub perform : {A : Type 0} → (Result E A → C) → (W → Result E A × W) → Action W E C A
  perform c call w = logged c (call w)

  -- A computation without a call.
  unfoldable pub value : {A : Type 0} → Result E A → Action W E C A
  value r w = record { result = r; world = w; calls = [] }

  -- An effect on the world that is no call of the list.
  unfoldable pub effect : (W → W) → Action W E C (Unit {0})
  effect f w = record { result = ok tt; world = f w; calls = [] }

  abbrev pub after_calls : {A : Type 0} → List C → Done W E C A → Done W E C A
  after_calls cs d = record d { calls = cs ++ d.calls }

  abbrev pub continue : {A B : Type 0} → Result E A → (A → Action W E C B) → Action W E C B
  continue (err e) k w = record { result = err e; world = w; calls = [] }
  continue (ok a) k w = k a w

  infixl 5 ◌>>>◌
  unfoldable pub ◌>>>◌ : {A B : Type 0} → Action W E C A → (A → Action W E C B) → Action W E C B
  (m >>> k) w = let d = m w in after_calls d.calls (continue d.result k d.world)

  -- defer: `last` is called once `m` has returned, and cannot fail.
  unfoldable pub deferring : {A : Type 0} → (W → W) → C → Action W E C A → Action W E C A
  deferring last c m w =
      let d = m w in record { result = d.result; world = last d.world; calls = d.calls ++ (c ∷ []) }
