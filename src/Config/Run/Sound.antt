-- ===== src/Config/Run/Sound.antt =====
-- What a resolved configuration guarantees.
use Prim.Native.String.{String}
use loadtool.Prelude.{
  ◌≡◌, ◌≢◌, refl, sym, ap, ◌∙◌, subst, List, [], ◌∷◌, Option, none, some, Bool, true, false, ◌||◌,
  arith, All, Bool-cases, inl, inr,
}
use loadtool.Prelude.Int.{
  ℤ, pos, ◌+ℤ◌, +ℤ_parts, ◌≤ℤ◌, add_int64, add_int64-exact, max_int64, int_laws,
}
use loadtool.Prelude.Result.{Result, ok, err}
use loadtool.Config.Scenario.{
  Stage, Scenario, ScenarioOptions, kind_of, max_vus, scenario_length, max_ℤ, is_set,
}
use loadtool.Config.Scenario as Scenario
use loadtool.Config.Scenario.Resolve.{resolve_scenario}
use loadtool.Config.Scenario.Valid.{resolve_scenario-IsValid}
use loadtool.Config.Run.{
  Options, Config, Error, shorthand, stages_options, collect, resolve_each, joined, from_scenarios,
  in_stages_of, choose,
}
use loadtool.Config.Run.Chosen.{summarize, set_timeouts}

-- A scenario that starts at or after the clock, has a VU and lasts.
pub record IsSized (s : Scenario) : Type 0 where
  pub starts : pos 0 ≤ℤ s.start_time
  pub some_vu : pos 1 ≤ℤ max_vus s
  pub lasts : pos 1 ≤ℤ scenario_length s

resolve_scenario-IsSized :
    (name : String) (o : ScenarioOptions) (s : Scenario)
    → resolve_scenario name o ≡ ok s
    → IsSized s
resolve_scenario-IsSized name o s h =
    let (k, _, v) = resolve_scenario-IsValid name o s h in
    record { starts = v.starts; some_vu = v.some_vu; lasts = v.lasts }

shorthand-IsSized :
    (vus dur graceful : ℤ) → pos 1 ≤ℤ vus → pos 1 ≤ℤ dur → IsSized (shorthand vus dur graceful)
unfolding max_vus scenario_length kind_of
shorthand-IsSized vus dur graceful h k = record { starts = omega arith; some_vu = h; lasts = k }

-- At least one scenario, each of them sized.
abbrev pub AreSized : List Scenario → Type 0
AreSized scs = (scs ≢ []) × All IsSized scs

collect-All :
    (name : String) (r : Result Scenario.Error Scenario) (p : List Scenario × List Error)
    → ((s : Scenario) → r ≡ ok s → IsSized s)
    → All IsSized p.0
    → All IsSized (collect name r p).0
collect-All name (ok s) (out, errs) h all = (h s refl, all)
collect-All name (err e) (out, errs) h all = all

resolve_each-All : (scs : List (String × ScenarioOptions)) → All IsSized (resolve_each scs).0
unfolding resolve_each
resolve_each-All [] = tt
resolve_each-All ((name, o) ∷ rest) =
    collect-All name (resolve_scenario name o) (resolve_each rest)
      (λ s h. resolve_scenario-IsSized name o s h) (resolve_each-All rest)

-- With no error every entry has become a scenario.
collect-some :
    (name : String) (r : Result Scenario.Error Scenario) (p : List Scenario × List Error)
    → (collect name r p).1 ≡ []
    → (collect name r p).0 ≢ []
collect-some name (ok s) (out, errs) h e = cc
collect-some name (err e) (out, errs) h _ = cc

joined-ok :
    (p : List Scenario × List Error) (scs : List Scenario) (b : Bool)
    → joined p ≡ ok (scs, b)
    → (p.0 ≡ scs) × (p.1 ≡ [])
joined-ok (out, []) scs b h = ((cc), refl)
joined-ok (out, e ∷ errs) scs b h = cc

from_scenarios-AreSized :
    (all : List (String × ScenarioOptions)) (scs : List Scenario) (b : Bool)
    → from_scenarios all ≡ ok (scs, b)
    → AreSized scs
from_scenarios-AreSized [] scs b h = cc
from_scenarios-AreSized ((name, o) ∷ rest) scs b h =
    let (same, clean) = joined-ok (resolve_each ((name, o) ∷ rest)) scs b h in
    subst AreSized same (
      unfold resolve_each in collect-some name (resolve_scenario name o) (resolve_each rest) clean,
      resolve_each-All ((name, o) ∷ rest),
    )

in_stages_of-AreSized :
    (r : Result Scenario.Error Scenario) (scs : List Scenario) (b : Bool)
    → ((s : Scenario) → r ≡ ok s → IsSized s)
    → in_stages_of r ≡ ok (scs, b)
    → AreSized scs
in_stages_of-AreSized (ok s) scs b h e =
    let same : s ∷ [] ≡ scs = cc in subst AreSized same ((λ q. cc), (h s refl, tt))
in_stages_of-AreSized (err x) scs b h e = cc

module _ (script : Options) (override : Bool) (vus dur graceful : ℤ) (some_vu : pos 1 ≤ℤ vus)
    (lasts : pos 1 ≤ℤ dur) where
  short-AreSized :
      (scs : List Scenario) (b r : Bool)
      → ◌≡◌ {A = Result (List Error) (List Scenario × Bool)}
          (ok (shorthand vus dur graceful ∷ [], r))
          (ok (scs, b))
      → AreSized scs
  short-AreSized scs b r e =
      let same : shorthand vus dur graceful ∷ [] ≡ scs = cc in
      subst AreSized same ((λ q. cc), (shorthand-IsSized vus dur graceful some_vu lasts, tt))

  pub choose-AreSized :
      (all : Option (List (String × ScenarioOptions))) (sts : Option (List Stage))
      (scs : List Scenario) (b : Bool)
      → choose script override vus dur graceful all sts ≡ ok (scs, b)
      → AreSized scs
  choose-AreSized (some all) sts scs b h =
      elim (Bool-cases (is_set script.vus || is_set script.duration || is_set script.stages)) [
        | inl e ↦ let bad = rw e at h in cc
        | inr e ↦
            let h' = rw e at h in
            elim (Bool-cases override) [
              | inl o ↦ short-AreSized scs b true (rw o at h')
              | inr o ↦ from_scenarios-AreSized all scs b (rw o at h')
            ]
      ]
  choose-AreSized none (some sts) scs b h = elim (Bool-cases (is_set script.duration)) [
    | inl e ↦ let bad = rw e at h in cc
    | inr e ↦
        let h' = rw e at h in
        elim (Bool-cases override) [
          | inl o ↦ short-AreSized scs b true (rw o at h')
          | inr o ↦
              in_stages_of-AreSized (resolve_scenario "default" (stages_options vus graceful sts))
                scs b (λ s k. resolve_scenario-IsSized "default" _ s k) (rw o at h')
        ]
  ]
  choose-AreSized none none scs b h = short-AreSized scs b false h

-- The sums over sized scenarios.
max_ℤ-le : (a b : ℤ) → (a ≤ℤ max_ℤ a b) × (b ≤ℤ max_ℤ a b)
max_ℤ-le a b = ground arith

-- The VUs of all scenarios.
abbrev pub all_vus : List Scenario → ℤ
all_vus [] = pos 0
all_vus (s ∷ ss) = max_vus s +ℤ all_vus ss

-- The end of a scenario is an int64.
abbrev pub EndsInRange : Scenario → Type 0
EndsInRange s = s.start_time +ℤ scenario_length s ≤ℤ pos max_int64

all_vus-le : (scs : List Scenario) → All IsSized scs → pos 0 ≤ℤ all_vus scs
all_vus-le [] all = omega arith
all_vus-le (s ∷ ss) (h, all) =
    let rest = all_vus-le ss all in
    let v = h.some_vu in omega (arith, +ℤ_parts (max_vus s) (all_vus ss))

int_zero : (a : ℤ) → a ≡ a +ℤ pos 0
int_zero a = grind int_laws

pub summarize-le :
    (vus dur : ℤ) (scs : List Scenario)
    → All IsSized scs
    → All EndsInRange scs
    → pos 0 ≤ℤ vus
    → vus +ℤ all_vus scs ≤ℤ pos max_int64
    → let r = summarize vus dur scs in
      (r.0 ≡ vus +ℤ all_vus scs)
      × (dur ≤ℤ r.1)
      × All (λ s. s.start_time +ℤ scenario_length s ≤ℤ r.1) scs
unfolding summarize
summarize-le vus dur [] all ends some_vus few = (int_zero vus, omega arith, tt)
summarize-le vus dur (s ∷ ss) (h, all) (fits, ends) some_vus few =
    let end = s.start_time +ℤ scenario_length s in
    let v = h.some_vu in
    let l = h.lasts in
    let t = h.starts in
    let rest = all_vus-le ss all in
    let assoc : vus +ℤ max_vus s +ℤ all_vus ss ≡ vus +ℤ (max_vus s +ℤ all_vus ss) =
      grind int_laws in
    let sum_parts = +ℤ_parts vus (max_vus s) in
    let left_parts = +ℤ_parts (vus +ℤ max_vus s) (all_vus ss) in
    let few' : vus +ℤ max_vus s +ℤ all_vus ss ≤ℤ pos max_int64 =
      subst (λ x. x ≤ℤ pos max_int64) (sym assoc) few in
    let some : pos 0 ≤ℤ vus +ℤ max_vus s = omega (arith, sum_parts) in
    let exact : add_int64 vus (max_vus s) ≡ vus +ℤ max_vus s =
      add_int64-exact vus (max_vus s) some_vus (omega arith)
        (omega (arith, sum_parts, left_parts)) in
    let exact' : add_int64 s.start_time (scenario_length s) ≡ end =
      add_int64-exact s.start_time (scenario_length s) t (omega arith) fits in
    let (a, b, c) = summarize-le (vus +ℤ max_vus s) (max_ℤ dur end) ss all ends some few' in
    let (m, n) = max_ℤ-le dur end in
    let same : summarize vus dur (s ∷ ss) ≡ summarize (vus +ℤ max_vus s) (max_ℤ dur end) ss =
      ap (λ x. summarize x (max_ℤ dur (add_int64 s.start_time (scenario_length s))) ss) exact
      ∙ ap (λ y. summarize (vus +ℤ max_vus s) (max_ℤ dur y) ss) exact' in
    subst
      (λ (r : ℤ × ℤ).
        (r.0 ≡ vus +ℤ all_vus (s ∷ ss))
        × (dur ≤ℤ r.1)
        × All (λ s. s.start_time +ℤ scenario_length s ≤ℤ r.1) (s ∷ ss))
      (sym same) (a ∙ assoc, omega arith, (omega arith, c))

-- One scenario is enough for a VU and a duration.
pub summarize-pos :
    (scs : List Scenario)
    → AreSized scs
    → All EndsInRange scs
    → all_vus scs ≤ℤ pos max_int64
    → let r = summarize (pos 0) (pos 0) scs in
      (r.0 ≡ all_vus scs)
      × (pos 1 ≤ℤ r.0)
      × (pos 1 ≤ℤ r.1)
      × All (λ s. s.start_time +ℤ scenario_length s ≤ℤ r.1) scs
summarize-pos [] (some_scenario, all) ends few = absurd (some_scenario refl)
summarize-pos (s ∷ ss) (_, all) ends few =
    let none_yet : pos 0 +ℤ all_vus (s ∷ ss) ≡ all_vus (s ∷ ss) = grind int_laws in
    let (a, b, c) =
      summarize-le (pos 0) (pos 0) (s ∷ ss) all ends (omega arith)
        (subst (λ x. x ≤ℤ pos max_int64) (sym none_yet) few) in
    let v = all.0.some_vu in
    let l = all.0.lasts in
    let t = all.0.starts in
    let rest = all_vus-le ss all.1 in
    let e = a ∙ none_yet in
    let some : pos 1 ≤ℤ all_vus (s ∷ ss) = omega (arith, +ℤ_parts (max_vus s) (all_vus ss)) in
    (
      e,
      subst (λ x. pos 1 ≤ℤ x) (sym e) some,
      omega (arith, c.0, +ℤ_parts s.start_time (scenario_length s)),
      c,
    )

-- The timeouts leave the rest of the configuration alone.
pub set_timeouts-keeps :
    (setup teardown : Option ℤ) (c : Config)
    → let c' = (set_timeouts setup teardown c).0 in
      (c'.vus ≡ c.vus)
      × (c'.duration ≡ c.duration)
      × (c'.scenarios ≡ c.scenarios)
      × (c'.script ≡ c.script)
      × (c'.graceful_stop ≡ c.graceful_stop)
set_timeouts-keeps setup teardown c = ground arith

in_stages_of-ne : (r : Result Scenario.Error Scenario) → in_stages_of r ≢ err []
in_stages_of-ne (ok s) h = cc
in_stages_of-ne (err e) h = cc

joined-ne : (p : List Scenario × List Error) → joined p ≢ err []
joined-ne (out, []) h = cc
joined-ne (out, e ∷ errs) h = cc

-- An error of resolveScenarios names at least one problem.
pub choose-ne :
    (script : Options) (override : Bool) (vus dur graceful : ℤ)
    (all : Option (List (String × ScenarioOptions))) (sts : Option (List Stage))
    → choose script override vus dur graceful all sts ≢ err []
choose-ne script override vus dur graceful (some []) sts h = ground arith
choose-ne script override vus dur graceful (some (s ∷ rest)) sts h =
    ground (arith, joined-ne (resolve_each (s ∷ rest)))
choose-ne script override vus dur graceful none (some sts) h =
    ground (arith, in_stages_of-ne (resolve_scenario "default" (stages_options vus graceful sts)))
choose-ne script override vus dur graceful none none h = cc
