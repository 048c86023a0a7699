-- ===== src/Engine/Executor.antt =====
-- The executors as a caller builds them (internal/engine/executors.go), and validate, which every
-- scenario passes before a virtual user is created. Counts and durations are signed here; a
-- duration is nanoseconds. The sum of the stages' durations wraps.
pub mod Accepted
pub mod Overflow
pub mod Active
use loadtool.Prelude.{
  ℕ, zero, suc, ◌+◌, ◌*◌, List, [], ◌∷◌, Option, none, some, Bool, true, false, ◌||◌, if◌then◌else◌,
}
use loadtool.Prelude.Int.{ℤ, pos, negsuc, add_int64, ltb_ℤ, leb_ℤ}

pub record SignedStage : Type 0 where
  pub duration : ℤ
  pub target : ℤ

pub record RampingVus : Type 0 where
  pub start_vus : ℤ
  pub stages : List SignedStage
  pub graceful_ramp_down : ℤ

pub data Executor : Type 0 where
  -- VUs, Duration
  constant_vus : ℤ → ℤ → Executor
  ramping_vus : RampingVus → Executor
  -- Rate, TimeUnit, Duration, PreAllocatedVUs
  constant_arrival_rate : ℤ → ℤ → ℤ → ℤ → Executor

pub data Error : Type 0 where
  constant_vus_needs arrival_rate_needs no_stages negative_start no_length bad_vus too_long : Error
  negative_stage : ℕ → Error

abbrev pub max_ℤ : ℤ → ℤ → ℤ
max_ℤ a b = if leb_ℤ a b then b else a

unfoldable pub stages_max : ℤ → List SignedStage → ℤ
stages_max n [] = n
stages_max n (st ∷ sts) = stages_max (max_ℤ n st.target) sts

unfoldable pub stages_length : ℤ → List SignedStage → ℤ
stages_length d [] = d
stages_length d (st ∷ sts) = stages_length (add_int64 d st.duration) sts

-- MaxVUs
unfoldable pub executor_max_vus : Executor → ℤ
executor_max_vus (constant_vus vus duration) = vus
executor_max_vus (ramping_vus e) = stages_max e.start_vus e.stages
executor_max_vus (constant_arrival_rate rate unit duration vus) = vus

-- Length
unfoldable pub executor_length : Executor → ℤ
executor_length (constant_vus vus duration) = duration
executor_length (ramping_vus e) = stages_length (pos 0) e.stages
executor_length (constant_arrival_rate rate unit duration vus) = duration

abbrev pub max_ramping_vus : ℕ
max_ramping_vus = 1_000_000

-- 1000 * time.Hour
abbrev pub max_length : ℕ
max_length = 3_600_000_000_000_000

-- The first stage with a negative field, counting from `i`.
unfoldable pub negative_from : ℕ → List SignedStage → Option ℕ
negative_from i [] = none
negative_from i (st ∷ sts) =
    if ltb_ℤ st.duration (pos 0) || ltb_ℤ st.target (pos 0)
    then some i
    else negative_from (suc i) sts

-- The checks behind the loop over the stages.
unfoldable pub validate_sizes : RampingVus → Option Error
validate_sizes e =
    if leb_ℤ (stages_length (pos 0) e.stages) (pos 0)
    then some no_length
    else if ltb_ℤ (stages_max e.start_vus e.stages) (pos 1)
        || ltb_ℤ (pos max_ramping_vus) (stages_max e.start_vus e.stages)
    then some bad_vus
    else if ltb_ℤ (pos max_length) (stages_length (pos 0) e.stages)
    then some too_long
    else none

abbrev pub stage_error : Option ℕ → Option Error → Option Error
stage_error (some i) rest = some (negative_stage i)
stage_error none rest = rest

abbrev pub is_empty {ℓ} : {A : Type ℓ} → List A → Bool
is_empty [] = true
is_empty (x ∷ xs) = false

unfoldable pub validate_ramping : RampingVus → Option Error
validate_ramping e =
    if is_empty e.stages
    then some no_stages
    else if ltb_ℤ e.start_vus (pos 0) || ltb_ℤ e.graceful_ramp_down (pos 0)
    then some negative_start
    else stage_error (negative_from 1 e.stages) (validate_sizes e)

abbrev pub validate_constant : ℤ → ℤ → Option Error
validate_constant vus duration =
    if ltb_ℤ vus (pos 1) || leb_ℤ duration (pos 0) then some constant_vus_needs else none

abbrev pub validate_arrival : ℤ → ℤ → ℤ → ℤ → Option Error
validate_arrival rate unit duration vus =
    if ltb_ℤ rate (pos 1) || leb_ℤ unit (pos 0) || leb_ℤ duration (pos 0) || ltb_ℤ vus (pos 1)
    then some arrival_rate_needs
    else none

-- The method of each executor.
unfoldable pub validate : Executor → Option Error
validate (constant_vus vus duration) = validate_constant vus duration
validate (ramping_vus e) = validate_ramping e
validate (constant_arrival_rate rate unit duration vus) = validate_arrival rate unit duration vus
