-- ===== src/Config/Run/Chosen.antt =====
-- Resolve: the choice of VUs and duration by priority, the summary of the scenarios, the settings
-- that only the script has, and Validate (internal/config/options.go, config.go).
use Prim.Native.String.{String}
use text.Mathlib.Text.{◌==◌ as str_eq}
use loadtool.Prelude.{
  List, [], ◌∷◌, ◌++◌, Option, none, some, Bool, true, false, ◌||◌, if◌then◌else◌,
}
use loadtool.Prelude.Int.{ℤ, pos, add_int64, ltb_ℤ, leb_ℤ}
use loadtool.Prelude.Result.{Result, ok, err}
use loadtool.Config.Scenario.{Scenario, max_vus, scenario_length, max_ℤ, is_set}
use loadtool.Config.Scenario.Resolve.{get_or}
use loadtool.Config.Run.{
  TextLib, Options, Overrides, Config, Source, command_line, environment, script_options, default,
  Error, env_vus_malformed, env_duration_malformed, vus_too_few, duration_not_positive,
  setup_timeout_not_positive, teardown_timeout_not_positive, default_vus, default_duration,
  default_lifecycle_timeout, is_true, resolve_scenarios,
}

-- The value that is set and not blank. A nil getenv is the function that has no variable.
unfoldable pub env_of : TextLib → (String → Option String) → String → Option String
env_of lib getenv name = elim (getenv name) [
  | none ↦ none
  | some v ↦ if str_eq (lib.trim_space v) "" then none else some v
]

abbrev pub has_env : TextLib → (String → Option String) → String → Bool
has_env lib getenv name = is_set (env_of lib getenv name)

abbrev pub or_fail : Error → Option ℤ → Result Error (ℤ × Source)
or_fail e none = err e
or_fail e (some v) = ok (v, environment)

-- The `switch` on the sources: the command line, the environment (parsed), the script.
abbrev pub by_priority :
    Option ℤ
    → Option String
    → (String → Option ℤ)
    → Error
    → Option ℤ
    → ℤ
    → Result Error (ℤ × Source)
by_priority (some v) env parse e script d = ok (v, command_line)
by_priority none (some s) parse e script d = or_fail e (parse s)
by_priority none none parse e (some v) d = ok (v, script_options)
by_priority none none parse e none d = ok (d, default)

abbrev pub check_vus : Result Error (ℤ × Source) → Result Error ℤ
check_vus (err e) = err e
check_vus (ok (v, src)) = if ltb_ℤ v (pos 1) then err (vus_too_few v src) else ok v

abbrev pub check_duration : Result Error (ℤ × Source) → Result Error ℤ
check_duration (err e) = err e
check_duration (ok (v, src)) = if leb_ℤ v (pos 0) then err (duration_not_positive v src) else ok v

module _ (lib : TextLib) where
  unfoldable pub resolve_vus : Overrides → (String → Option String) → Options → Result Error ℤ
  resolve_vus cli getenv script = check_vus (
      by_priority cli.vus (env_of lib getenv "LOADTOOL_VUS") (λ s. lib.atoi (lib.trim_space s))
        env_vus_malformed script.vus default_vus)

  unfoldable pub resolve_duration : Overrides → (String → Option String) → Options → Result Error ℤ
  resolve_duration cli getenv script = check_duration (
      by_priority cli.duration (env_of lib getenv "LOADTOOL_DURATION")
        (λ s. lib.parse_duration (lib.trim_space s)) env_duration_malformed script.duration
        default_duration)

  abbrev pub overridden : Overrides → (String → Option String) → Bool
  overridden cli getenv =
      is_set cli.vus
      || is_set cli.duration
      || has_env lib getenv "LOADTOOL_VUS"
      || has_env lib getenv "LOADTOOL_DURATION"

-- The loop that sums VUs and takes the latest end.
unfoldable pub summarize : ℤ → ℤ → List Scenario → ℤ × ℤ
summarize vus dur [] = (vus, dur)
summarize vus dur (s ∷ ss) =
    summarize (add_int64 vus (max_vus s)) (max_ℤ dur (add_int64 s.start_time (scenario_length s)))
      ss

-- What is assigned once the scenarios are resolved, before the timeouts.
unfoldable pub settle : Config → Options → List Scenario → Bool → Config
settle c script scs replaced =
    let (vus, dur) = summarize (pos 0) (pos 0) scs in
    record c {
      scenarios = scs;
      scenarios_replaced = replaced;
      vus = vus;
      duration = dur;
      discard_response_bodies = get_or script.discard_response_bodies true;
      no_cookies_reset = is_true script.no_cookies_reset;
      no_connection_reuse = is_true script.no_connection_reuse;
      http_version = get_or script.http_version "auto";
      setup_timeout = default_lifecycle_timeout;
      teardown_timeout = default_lifecycle_timeout;
    }

abbrev pub set_teardown : Option ℤ → Config → Config × List Error
set_teardown none c = (c, [])
set_teardown (some d) c =
    if leb_ℤ d (pos 0)
    then (c, teardown_timeout_not_positive ∷ [])
    else (record c { teardown_timeout = d }, [])

-- The loop over the two timeouts.
abbrev pub set_timeouts : Option ℤ → Option ℤ → Config → Config × List Error
set_timeouts none teardown c = set_teardown teardown c
set_timeouts (some d) teardown c =
    if leb_ℤ d (pos 0)
    then (c, setup_timeout_not_positive ∷ [])
    else set_teardown teardown (record c { setup_timeout = d })

abbrev pub apply_scenarios :
    Config → Options → Result (List Error) (List Scenario × Bool) → Config × List Error
apply_scenarios c script (err es) = (c, es)
apply_scenarios c script (ok (scs, replaced)) =
    set_timeouts script.setup_timeout script.teardown_timeout (settle c script scs replaced)

abbrev pub with_duration : Config → Options → Bool → ℤ → Result Error ℤ → Config × List Error
with_duration c script override vus (err e) = (c, e ∷ [])
with_duration c script override vus (ok dur) =
    apply_scenarios c script (resolve_scenarios script override vus dur c.graceful_stop)

abbrev pub with_vus :
    Config → Options → Bool → Result Error ℤ → Result Error ℤ → Config × List Error
with_vus c script override (err e) dur = (c, e ∷ [])
with_vus c script override (ok vus) dur = with_duration c script override vus dur

-- The receiver is returned with the error: it has been written to if a timeout is refused.
unfoldable pub resolve :
    TextLib → Config → Overrides → (String → Option String) → Options → Config × List Error
resolve lib c cli getenv script =
    with_vus c script (overridden lib cli getenv) (resolve_vus lib cli getenv script)
      (resolve_duration lib cli getenv script)

pub data Invalid : Type 0 where
  script_required few_vus no_duration negative_graceful_stop : Invalid

abbrev pub when : Bool → Invalid → List Invalid
when true e = e ∷ []
when false e = []

-- Every invalid field.
unfoldable pub validate_config : Config → List Invalid
validate_config c =
    when (str_eq c.script "") script_required
    ++ when (ltb_ℤ c.vus (pos 1)) few_vus
    ++ when (leb_ℤ c.duration (pos 0)) no_duration
    ++ when (ltb_ℤ c.graceful_stop (pos 0)) negative_graceful_stop
