-- ===== src/Script/Tests.antt =====
-- A program with two functions that scenarios name.
use Prim.Native.String.{String}
use text.Mathlib.Text.{◌==◌ as str_eq}
use loadtool.Prelude.{◌≡◌, ◌⊎◌, refl, ℕ, List, [], ◌∷◌, true, false, none}
use loadtool.Prelude.Result.{Result, ok}
use loadtool.Script.{Program, loaded, with_execs, has, is_prepared}
use loadtool.Script.Prepared.{with_execs-is_prepared}

abbrev exports : ℕ → Result String (List String)
exports code = ok ("load" ∷ "browse" ∷ "buy" ∷ [])

abbrev compiled : ℕ → List String → Result String ℕ
compiled code names = ok 8

abbrev prepared : Program ℕ ℕ
prepared = record {
  code = 8;
  execs = "buy" ∷ "browse" ∷ [];
  discard_bodies = false;
  keep_cookies = false;
  setup_data = none;
}

prepares :
    with_execs
      (λ names. names)
      exports
      compiled
      (loaded 7)
      ("buy" ∷ "default" ∷ "browse" ∷ "buy" ∷ [])
    ≡ ok prepared
unfolding with_execs
prepares = refl

with_execs-is_prepared_example :
    (is_prepared prepared "browse" ≡ true)
    × ((str_eq "browse" "default" ≡ true)
        ⊎ ((exported : List String) × (exports 7 ≡ ok exported)
            × (has exported "browse" ≡ true)
            × (compiled 7 prepared.execs ≡ ok 8)))
with_execs-is_prepared_example =
    with_execs-is_prepared (λ names. names) exports compiled (loaded 7) prepared
      ("buy" ∷ "default" ∷ "browse" ∷ "buy" ∷ []) (λ names n h. h) prepares "browse" refl
