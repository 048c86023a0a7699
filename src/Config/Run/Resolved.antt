-- ===== src/Config/Run/Resolved.antt =====
-- Resolve as a whole: what an error-free result guarantees, and which source decides.
use Prim.Native.String.{String}
use text.Mathlib.Text.{◌==◌ as str_eq}
use loadtool.Prelude.{
  ◌≡◌, ◌≢◌, refl, sym, ◌∙◌, ap, subst, List, [], Option, Bool, false, arith, All,
}
use loadtool.Prelude.Int.{ℤ, pos, max_int64, ◌+ℤ◌, ltb_ℤ, leb_ℤ, ◌≤ℤ◌}
use loadtool.Prelude.Result.{Result, ok, err}
use loadtool.Config.Scenario.{Scenario, scenario_length}
use loadtool.Config.Run.{
  TextLib, Options, Overrides, Config, Source, Error, env_vus_malformed, env_duration_malformed,
  default_vus, default_duration, resolve_scenarios,
}
use loadtool.Config.Run.Chosen.{
  resolve_vus, resolve_duration, by_priority, overridden, settle, set_timeouts, apply_scenarios,
  with_vus, with_duration, resolve, validate_config, check_vus, check_duration, env_of,
}
use loadtool.Config.Run.Sound.{
  AreSized, EndsInRange, all_vus, choose-AreSized, summarize-pos, set_timeouts-keeps, choose-ne,
}

-- A configuration that a run can use, but for its script and graceful stop.
pub record IsRunnable (c : Config) : Type 0 where
  pub sized : AreSized c.scenarios
  pub total : c.vus ≡ all_vus c.scenarios
  pub some_vu : pos 1 ≤ℤ c.vus
  pub lasts : pos 1 ≤ℤ c.duration
  pub ends : All (λ s. s.start_time +ℤ scenario_length s ≤ℤ c.duration) c.scenarios

-- The scenarios' ends and the exact sum of their VUs are int64s.
abbrev pub InRange : List Scenario → Type 0
InRange scs = All EndsInRange scs × (all_vus scs ≤ℤ pos max_int64)

settle-IsRunnable :
    (c : Config) (script : Options) (scs : List Scenario) (b : Bool)
    → AreSized scs
    → InRange scs
    → IsRunnable (settle c script scs b)
unfolding settle
settle-IsRunnable c script scs b sized (ends, few) =
    let (total, v, d, within) = summarize-pos scs sized ends few in
    record { sized = sized; total = total; some_vu = v; lasts = d; ends = within }

timeouts-IsRunnable :
    (setup teardown : Option ℤ) (c : Config)
    → IsRunnable c
    → IsRunnable (set_timeouts setup teardown c).0
timeouts-IsRunnable setup teardown c r =
    let (v, d, s, _, _) = set_timeouts-keeps setup teardown c in
    record {
      sized = rw s r.sized;
      total = rw (s, v) r.total;
      some_vu = rw v r.some_vu;
      lasts = rw d r.lasts;
      ends = rw (s, d) r.ends;
    }

apply-IsRunnable :
    (c c' : Config) (script : Options) (r : Result (List Error) (List Scenario × Bool))
    → ((scs : List Scenario) (b : Bool) → r ≡ ok (scs, b) → AreSized scs)
    → r ≢ err []
    → apply_scenarios c script r ≡ (c', [])
    → InRange c'.scenarios
    → IsRunnable c'
unfolding settle
apply-IsRunnable c c' script (err es) sized ne h fits =
    absurd (ne (ap err (ap (λ (p : Config × List Error). p.1) h)))
apply-IsRunnable c c' script (ok (scs, b)) sized ne h fits =
    let same = ap (λ (p : Config × List Error). p.0) h in
    let (v, d, kept, _, _) =
      set_timeouts-keeps script.setup_timeout script.teardown_timeout (settle c script scs b) in
    let scenarios_are : c'.scenarios ≡ scs = sym (ap (λ (x : Config). x.scenarios) same) ∙ kept in
    subst IsRunnable same (
      timeouts-IsRunnable script.setup_timeout script.teardown_timeout _
        (settle-IsRunnable c script scs b (sized scs b refl) (subst InRange scenarios_are fits)))

check_vus-ok : (r : Result Error (ℤ × Source)) (v : ℤ) → check_vus r ≡ ok v → pos 1 ≤ℤ v
check_vus-ok (err e) v h = ground arith
check_vus-ok (ok (w, src)) v h = ground arith

check_duration-ok : (r : Result Error (ℤ × Source)) (v : ℤ) → check_duration r ≡ ok v → pos 1 ≤ℤ v
check_duration-ok (err e) v h = ground arith
check_duration-ok (ok (w, src)) v h = ground arith

with_duration-IsRunnable :
    (c c' : Config) (script : Options) (override : Bool) (vus : ℤ) (dur : Result Error ℤ)
    → pos 1 ≤ℤ vus
    → ((v : ℤ) → dur ≡ ok v → pos 1 ≤ℤ v)
    → with_duration c script override vus dur ≡ (c', [])
    → InRange c'.scenarios
    → IsRunnable c'
unfolding resolve_scenarios
with_duration-IsRunnable c c' script override vus (err e) h k w fits = ground arith
with_duration-IsRunnable c c' script override vus (ok dur) h k w fits =
    apply-IsRunnable c c' script _
      (λ scs b e.
        choose-AreSized script override vus dur c.graceful_stop h (k dur refl) script.scenarios
          script.stages scs b e)
      (choose-ne script override vus dur c.graceful_stop script.scenarios script.stages) w fits

with_vus-IsRunnable :
    (c c' : Config) (script : Options) (override : Bool) (vus dur : Result Error ℤ)
    → ((v : ℤ) → vus ≡ ok v → pos 1 ≤ℤ v)
    → ((v : ℤ) → dur ≡ ok v → pos 1 ≤ℤ v)
    → with_vus c script override vus dur ≡ (c', [])
    → InRange c'.scenarios
    → IsRunnable c'
with_vus-IsRunnable c c' script override (err e) dur h k w fits = ground arith
with_vus-IsRunnable c c' script override (ok vus) dur h k w fits =
    with_duration-IsRunnable c c' script override vus dur (h vus refl) k w fits

-- If Resolve reports no error, and the ends of the scenarios that it leaves and the sum of their VUs
-- are within an int64: the configuration has at least one scenario, each of which starts at or after
-- the clock, has a VU and lasts. VUs is the sum of the scenarios' VUs, VUs and Duration are at least 1,
-- and no scenario stops starting iterations later than Duration.
pub resolve-IsRunnable :
    (lib : TextLib) (c c' : Config) (cli : Overrides) (getenv : String → Option String)
    (script : Options)
    → resolve lib c cli getenv script ≡ (c', [])
    → InRange c'.scenarios
    → IsRunnable c'
unfolding resolve resolve_vus resolve_duration
resolve-IsRunnable lib c c' cli getenv script h fits =
    with_vus-IsRunnable c c' script (overridden lib cli getenv) _ _
      (check_vus-ok (
        by_priority cli.vus (env_of lib getenv "LOADTOOL_VUS") (λ s. lib.atoi (lib.trim_space s))
          env_vus_malformed script.vus default_vus))
      (check_duration-ok (
        by_priority cli.duration (env_of lib getenv "LOADTOOL_DURATION")
          (λ s. lib.parse_duration (lib.trim_space s)) env_duration_malformed script.duration
          default_duration))
      h fits

-- Validate accepts every such configuration that has a script and a graceful stop that is not
-- negative.
pub IsRunnable-validate_config :
    (c : Config)
    → IsRunnable c
    → str_eq c.script "" ≡ false
    → pos 0 ≤ℤ c.graceful_stop
    → validate_config c ≡ []
unfolding validate_config
IsRunnable-validate_config c r named h =
    let v = r.some_vu in
    let d = r.lasts in
    let a : ltb_ℤ c.vus (pos 1) ≡ false = ground arith in
    let b : leb_ℤ c.duration (pos 0) ≡ false = ground arith in
    let g : ltb_ℤ c.graceful_stop (pos 0) ≡ false = ground arith in rw (named, a, b, g)
