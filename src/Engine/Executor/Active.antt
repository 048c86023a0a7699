-- ===== src/Engine/Executor/Active.antt =====
-- activeVUs (internal/engine/scenario.go) over the scenarios of a run, whose executors validate has
-- accepted; offsets and durations are nanoseconds.
use loadtool.Prelude.{ℕ, ◌+◌, ◌-◌, List, [], ◌∷◌, Option, none, some, ltb, leb, if◌then◌else◌, All}
use loadtool.Prelude.Int.{ℤ, pos, ◌+ℤ◌}
use loadtool.Engine.Ramp.{Ramp, max_vus, active_at}
use loadtool.Engine.Ramp.Finds.{IsWhole}
use loadtool.Engine.Arrival.{ArrivalRate, arrival_active_at}

-- An accepted executor.
pub data Driver : Type 0 where
  -- VUs, Duration
  constant : ℕ → ℕ → Driver
  ramping : Ramp → Driver
  arrival : ArrivalRate → Driver

pub record Scenario : Type 0 where
  pub start_time : ℕ
  pub driver : Driver

abbrev pub constant_active_at : ℕ → ℕ → ℕ → ℕ
constant_active_at vus duration t = if ltb t duration then vus else 0

-- The method of each executor; `none` is a panic.
unfoldable pub driver_active_at : Driver → ℕ → Option ℤ
driver_active_at (constant vus duration) t = some (pos (constant_active_at vus duration t))
driver_active_at (ramping e) t = active_at e t
driver_active_at (arrival e) t = some (pos (arrival_active_at e t))

abbrev pub plus : ℤ → Option ℤ → Option ℤ
plus n none = none
plus n (some m) = some (n +ℤ m)

-- The rest of a computation that may have panicked.
abbrev pub and_then : Option ℤ → (ℤ → Option ℤ) → Option ℤ
and_then none f = none
and_then (some n) f = f n

unfoldable pub active_vus_from : ℤ → List Scenario → ℕ → Option ℤ
active_vus_from n [] at = some n
active_vus_from n (sc ∷ scs) at =
    and_then
      (if leb sc.start_time at
        then plus n (driver_active_at sc.driver (at - sc.start_time))
        else some n)
      (λ m. active_vus_from m scs at)

-- `none` is the panic of activeAt.
unfoldable pub active_vus : List Scenario → ℕ → Option ℤ
active_vus scs at = active_vus_from (pos 0) scs at

unfoldable pub driver_max_vus : Driver → ℕ
driver_max_vus (constant vus duration) = vus
driver_max_vus (ramping e) = max_vus e
driver_max_vus (arrival e) = e.pre_allocated_vus

-- The number of VUs that RunScenarios creates: the recorders' count `total`.
unfoldable pub total_vus : List Scenario → ℕ
total_vus [] = 0
total_vus (sc ∷ scs) = driver_max_vus sc.driver + total_vus scs

abbrev pub Driver-IsWhole : Driver → Type 0
Driver-IsWhole (constant vus duration) = Unit
Driver-IsWhole (ramping e) = All IsWhole e.stages
Driver-IsWhole (arrival e) = Unit
