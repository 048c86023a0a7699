-- ===== src/Config/Scenario.antt =====
-- One scenario of internal/config/scenarios.go. Counts and durations (nanoseconds) are signed, as a
-- script may write them; a pointer field that may be nil is an Option.
pub mod Resolve
pub mod Valid
use Prim.Native.Char.{code}
use Prim.Native.String.{String}
use text.Mathlib.Text.{◌==◌ as str_eq}
use loadtool.Prelude.{
  ℕ, zero, suc, List, [], ◌∷◌, map, Option, none, some, Bool, true, false, ◌&&◌, ◌||◌, not, leb,
  ltb, ◌==◌, if◌then◌else◌,
}
use loadtool.Prelude.Int.{ℤ, pos, negsuc, ◌+ℤ◌, ltb_ℤ, leb_ℤ, add_int64}
use loadtool.Prelude.Result.{Result, ok, err, ◌>>=◌, ◌>>◌, refuse}

pub record Stage : Type 0 where
  pub duration : ℤ
  pub target : ℤ

-- The executors' names.
pub data Kind : Type 0 where
  constant_vus ramping_vus constant_arrival_rate : Kind

-- The lookup in `allowed`, whose keys are the three names.
unfoldable pub kind_of : String → Option Kind
kind_of s =
    if str_eq s "constant-vus"
    then some constant_vus
    else if str_eq s "ramping-vus"
    then some ramping_vus
    else if str_eq s "constant-arrival-rate"
    then some constant_arrival_rate
    else none

pub record Scenario : Type 0 where
  pub name : String
  pub executor : String
  pub exec : String
  pub start_time : ℤ
  pub graceful_stop : ℤ
  pub vus : ℤ
  pub duration : ℤ
  pub start_vus : ℤ
  pub stages : List Stage
  pub graceful_ramp_down : ℤ
  pub rate : ℤ
  pub time_unit : ℤ
  pub pre_allocated_vus : ℤ

abbrev pub max_ℤ : ℤ → ℤ → ℤ
max_ℤ a b = if leb_ℤ a b then b else a

unfoldable pub stages_max : ℤ → List Stage → ℤ
stages_max n [] = n
stages_max n (st ∷ sts) = stages_max (max_ℤ n st.target) sts

unfoldable pub stages_length : ℤ → List Stage → ℤ
stages_length d [] = d
stages_length d (st ∷ sts) = stages_length (add_int64 d st.duration) sts

abbrev pub max_vus_of : Option Kind → Scenario → ℤ
max_vus_of (some ramping_vus) s = stages_max s.start_vus s.stages
max_vus_of (some constant_arrival_rate) s = s.pre_allocated_vus
max_vus_of _ s = s.vus

unfoldable pub max_vus : Scenario → ℤ
max_vus s = max_vus_of (kind_of s.executor) s

abbrev pub length_of : Option Kind → Scenario → ℤ
length_of (some ramping_vus) s = stages_length (pos 0) s.stages
length_of _ s = s.duration

unfoldable pub scenario_length : Scenario → ℤ
scenario_length s = length_of (kind_of s.executor) s

pub record ScenarioOptions : Type 0 where
  pub executor : String
  pub exec : Option String
  pub start_time : Option ℤ
  pub graceful_stop : Option ℤ
  pub vus : Option ℤ
  pub duration : Option ℤ
  pub start_vus : Option ℤ
  pub stages : Option (List Stage)
  pub graceful_ramp_down : Option ℤ
  pub rate : Option ℤ
  pub time_unit : Option ℤ
  pub pre_allocated_vus : Option ℤ
  pub max_vus : Option ℤ

-- The keys of `set` that resolveScenario checks against the executor, in sorted order.
pub data Field : Type 0 where
  duration graceful_ramp_down max_vus_field pre_allocated_vus rate stages start_vus time_unit vus :
      Field

pub data Error : Type 0 where
  bad_exec : String → Error
  negative_times executor_required : Error
  unsupported_executor : String → Error
  does_not_apply : Field → Error
  bad_vus bad_duration negative_ramp stages_required no_length no_vus : Error
  bad_stage : ℕ → Error
  bad_rate bad_pre_allocated_vus bad_time_unit max_vus_differs : Error

-- identifier: ^[A-Za-z_$][A-Za-z0-9_$]*$
abbrev pub is_letter : ℕ → Bool
is_letter c = leb b'A' c && leb c b'Z' || leb b'a' c && leb c b'z' || c == b'_' || c == b'$'

unfoldable pub all_identifier : String → Bool
all_identifier String.[] = true
all_identifier (String.◌∷◌ c s) =
    (is_letter (code c) || leb b'0' (code c) && leb (code c) b'9') && all_identifier s

unfoldable pub is_identifier : String → Bool
is_identifier String.[] = false
is_identifier (String.◌∷◌ c s) = is_letter (code c) && all_identifier s

-- The table `allowed`.
abbrev pub allowed : Kind → Field → Bool
allowed constant_vus vus = true
allowed constant_vus duration = true
allowed constant_vus _ = false
allowed ramping_vus start_vus = true
allowed ramping_vus stages = true
allowed ramping_vus graceful_ramp_down = true
allowed ramping_vus _ = false
allowed constant_arrival_rate rate = true
allowed constant_arrival_rate time_unit = true
allowed constant_arrival_rate duration = true
allowed constant_arrival_rate pre_allocated_vus = true
allowed constant_arrival_rate max_vus_field = true
allowed constant_arrival_rate _ = false

abbrev pub is_set {ℓ} : {A : Type ℓ} → Option A → Bool
is_set none = false
is_set (some a) = true

abbrev pub set_of : ScenarioOptions → Field → Bool
set_of o duration = is_set o.duration
set_of o graceful_ramp_down = is_set o.graceful_ramp_down
set_of o max_vus_field = is_set o.max_vus
set_of o pre_allocated_vus = is_set o.pre_allocated_vus
set_of o rate = is_set o.rate
set_of o stages = is_set o.stages
set_of o start_vus = is_set o.start_vus
set_of o time_unit = is_set o.time_unit
set_of o vus = is_set o.vus

abbrev pub sorted_fields : List Field
sorted_fields =
    duration ∷ graceful_ramp_down ∷ max_vus_field ∷ pre_allocated_vus ∷ rate ∷ stages ∷ start_vus
    ∷ time_unit ∷ vus ∷ []
