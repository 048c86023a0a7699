-- ===== src/Config/Scenario/Resolve.antt =====
-- resolveScenario (internal/config/scenarios.go): one scenario's checks and defaults.
use Prim.Native.String.{String}
use text.Mathlib.Text.{◌==◌ as str_eq}
use loadtool.Prelude.{
  ℕ, suc, List, [], ◌∷◌, Option, none, some, Bool, false, ◌&&◌, ◌||◌, not, if◌then◌else◌,
}
use loadtool.Prelude.Int.{ℤ, pos, ltb_ℤ, leb_ℤ}
use loadtool.Prelude.Result.{Result, ok, err, ◌>>=◌, ◌>>◌, refuse}
use loadtool.Config.Scenario.{
  Stage, Kind, constant_vus, ramping_vus, constant_arrival_rate, kind_of, Scenario, max_vus,
  scenario_length, ScenarioOptions, Field, sorted_fields, Error, bad_exec, negative_times,
  executor_required, unsupported_executor, does_not_apply, bad_vus, bad_duration, negative_ramp,
  stages_required, no_length, no_vus, bad_stage, bad_rate, bad_pre_allocated_vus, bad_time_unit,
  max_vus_differs, is_identifier, allowed, set_of,
}

abbrev pub get_or {ℓ} : {A : Type ℓ} → Option A → A → A
get_or (some a) d = a
get_or none d = d

-- 30 * time.Second, and time.Second
abbrev pub default_graceful_stop : ℤ
default_graceful_stop = pos 30_000_000_000

abbrev pub default_graceful_ramp_down : ℤ
default_graceful_ramp_down = pos 30_000_000_000

abbrev pub default_time_unit : ℤ
default_time_unit = pos 1_000_000_000

unfoldable pub resolve_exec : Option String → Result Error String
resolve_exec none = ok "default"
resolve_exec (some e) = if is_identifier e then ok e else err (bad_exec e)

-- The first set field that does not belong to the executor.
unfoldable pub misplaced : Kind → ScenarioOptions → List Field → Option Field
misplaced k o [] = none
misplaced k o (f ∷ fs) = if set_of o f && not (allowed k f) then some f else misplaced k o fs

abbrev pub check_fields : Option Field → Result Error (Unit {0})
check_fields none = ok tt
check_fields (some f) = err (does_not_apply f)

abbrev pub check_executor : String → Option Kind → Result Error Kind
check_executor e (some k) = ok k
check_executor e none = if str_eq e "" then err executor_required else err (unsupported_executor e)

-- A required value, with the check that it must pass.
abbrev pub required : (ℤ → Bool) → Error → Option ℤ → Result Error ℤ
required good e none = err e
required good e (some v) = if good v then ok v else err e

abbrev pub is_positive : ℤ → Bool
is_positive v = ltb_ℤ (pos 0) v

abbrev pub at_least_one : ℤ → Bool
at_least_one v = leb_ℤ (pos 1) v

unfoldable pub resolve_constant : ScenarioOptions → Scenario → Result Error Scenario
resolve_constant o s = do
  let n = get_or o.vus (pos 1)
  refuse (ltb_ℤ n (pos 1)) bad_vus
  d ← required is_positive bad_duration o.duration
  ok (record s { vus = n; duration = d })

-- The loop over the stages, which copies them, counting from `i`.
unfoldable pub copy_stages : ℕ → List Stage → Result Error (List Stage)
copy_stages i [] = ok []
copy_stages i (st ∷ sts) =
    let rest = copy_stages (suc i) sts in
    if ltb_ℤ st.duration (pos 0) || ltb_ℤ st.target (pos 0)
    then err (bad_stage i)
    else rest >>= λ r. ok (st ∷ r)

abbrev pub check_stages : Option (List Stage) → Result Error (List Stage)
check_stages none = err stages_required
check_stages (some []) = err stages_required
check_stages (some (st ∷ sts)) = copy_stages 1 (st ∷ sts)

unfoldable pub resolve_ramping : ScenarioOptions → Scenario → Result Error Scenario
resolve_ramping o s = do
  let n = get_or o.start_vus (pos 1)
  let g = get_or o.graceful_ramp_down default_graceful_ramp_down
  refuse (ltb_ℤ n (pos 0) || ltb_ℤ g (pos 0)) negative_ramp
  sts ← check_stages o.stages
  let s' = record s { start_vus = n; graceful_ramp_down = g; stages = sts }
  refuse (leb_ℤ (scenario_length s') (pos 0)) no_length
  refuse (ltb_ℤ (max_vus s') (pos 1)) no_vus
  ok s'

abbrev pub differs : Option ℤ → ℤ → Bool
differs none v = false
differs (some m) v = not (leb_ℤ m v && leb_ℤ v m)

unfoldable pub resolve_arrival : ScenarioOptions → Scenario → Result Error Scenario
resolve_arrival o s = do
  r ← required at_least_one bad_rate o.rate
  d ← required is_positive bad_duration o.duration
  p ← required at_least_one bad_pre_allocated_vus o.pre_allocated_vus
  let u = get_or o.time_unit default_time_unit
  refuse (leb_ℤ u (pos 0)) bad_time_unit
  refuse (differs o.max_vus p) max_vus_differs
  ok (record s { rate = r; duration = d; pre_allocated_vus = p; time_unit = u })

-- The `switch` on the executor.
abbrev pub resolve_kind : Kind → ScenarioOptions → Scenario → Result Error Scenario
resolve_kind constant_vus = resolve_constant
resolve_kind ramping_vus = resolve_ramping
resolve_kind constant_arrival_rate = resolve_arrival

-- A scenario with no field of its executor set yet.
abbrev pub base : String → ScenarioOptions → String → Scenario
base name o exec = record {
  name = name;
  executor = o.executor;
  exec = exec;
  start_time = get_or o.start_time (pos 0);
  graceful_stop = get_or o.graceful_stop default_graceful_stop;
  vus = pos 0;
  duration = pos 0;
  start_vus = pos 0;
  stages = [];
  graceful_ramp_down = pos 0;
  rate = pos 0;
  time_unit = pos 0;
  pre_allocated_vus = pos 0;
}

unfoldable pub resolve_scenario : String → ScenarioOptions → Result Error Scenario
resolve_scenario name o = do
  exec ← resolve_exec o.exec
  let s = base name o exec
  refuse (ltb_ℤ s.start_time (pos 0) || ltb_ℤ s.graceful_stop (pos 0)) negative_times
  k ← check_executor o.executor (kind_of o.executor)
  check_fields (misplaced k o sorted_fields)
  resolve_kind k o s
