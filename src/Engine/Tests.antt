-- ===== src/Engine/Tests.antt =====
-- Runs of the engine, and its theorems at concrete inputs.
use loadtool.Prelude.{ℕ, ◌≡◌, ◌↔◌, ◌+◌, ◌<◌, refl, List, [], ◌∷◌, none, some, true, false, arith}
use loadtool.Prelude.Int.{pos, ◌+ℤ◌, ◌*ℤ◌, ◌-ℤ◌}
use loadtool.Engine.Ramp.{
  crossing, cross_from, cross_segment, line, crossing_dx, ceil_div, length_from, max_vus_from, Ramp,
  Search, ramp_length, max_vus, next, active_at,
}
use loadtool.Engine.Ramp.Finds.{Finds}
use loadtool.Engine.Ramp.Drive.{quit, wait, iterate, Round, drive, turn}
use loadtool.Engine.Ramp.Active.{active_at-panic}
use loadtool.Engine.Arrival.{
  ArrivalRate, Run, Reach, offset, due, begin_run, begin, then, hand_over, drop, finish, exhaust,
}
use loadtool.Engine.Arrival.Schedule.{starts, offset-lt}
use loadtool.Engine.Arrival.Tokens.{Inv, Reach-Inv, Reach-accounts}
use loadtool.Engine.Executor.{validate_ramping}
use loadtool.Engine.Executor.Accepted.{
  signed_ramp, Accepts, validate_ramping_iff, Accepts-validate_ramping,
}
use loadtool.Engine.Executor.Overflow.{Fits, stages-fit}
use loadtool.Engine.Executor.Active.{Scenario, constant, ramping, arrival}

-- From 0 to 10 VUs in 10 s, then down to 2 in 8 s.
abbrev hill : Ramp
hill = record {
  start_vus = 0;
  stages =
      record { duration = 10_000_000_000; target = 10 }
      ∷ record { duration = 8_000_000_000; target = 2 }
      ∷ [];
  graceful_ramp_down = 0;
}

-- VU 3 starts behind 4 s, and stops in the second stage.
next_starts : next hill 3 0 true ≡ Search.found 4_000_000_000
unfolding next crossing cross_from cross_segment line ◌+ℤ◌ ◌*ℤ◌ ◌-ℤ◌ crossing_dx ceil_div
    ramp_length length_from
next_starts = refl

active_at-panic_example :
    active_at
      (record {
        start_vus = 1;
        stages = record { duration = 500; target = 2 } ∷ [];
        graceful_ramp_down = 0;
      })
      0
    ≡ none
active_at-panic_example =
    active_at-panic 1 0 0 (record { duration = 500; target = 2 }) [] (omega arith) (omega arith)

-- Three starts a second, for a second, on one VU.
abbrev beat : ArrivalRate
beat = record {
  rate = 3;
  time_unit = 1_000_000_000;
  duration = 1_000_000_000;
  pre_allocated_vus = 1;
}

offset-lt_example : (due beat 2 ≡ true) ↔ (2 < starts beat)
offset-lt_example = offset-lt beat 2 (omega arith) (omega arith) (omega arith) (omega arith)

-- After the start k = 0, whose VU is still busy: k = 1, and so on.
abbrev state_of : ℕ → ℕ → ℕ → ℕ → ℕ → Run
state_of k idle busy finished dropped = record {
  k = k;
  idle = idle;
  busy = busy;
  finished = finished;
  dropped = dropped;
  lost = 0;
  running = true;
  cancelled = false;
}

handed : Reach beat (state_of 1 0 1 0 0)
unfolding offset begin_run
handed = then begin (hand_over refl refl (omega arith) refl)

dropped : Reach beat (state_of 2 0 1 0 1)
unfolding offset
dropped = then handed (drop refl refl refl refl)

served : Reach beat (state_of 3 1 0 2 1)
unfolding offset
served =
    then (then (then dropped (finish (omega arith) refl)) (hand_over refl refl (omega arith) refl))
      (finish (omega arith) refl)

over : Reach beat (record (state_of 3 1 0 2 1) { running = false })
unfolding offset
over = then served (exhaust refl refl refl)

Reach-Inv_example : Inv beat (state_of 2 0 1 0 1)
Reach-Inv_example = Reach-Inv beat (omega arith) (omega arith) (omega arith) dropped

Reach-accounts_example : 2 + 1 ≡ starts beat
Reach-accounts_example =
    Reach-accounts beat (omega arith) (omega arith) (omega arith) over refl refl refl

hill-Accepts : Accepts hill
unfolding ramp_length max_vus length_from max_vus_from
hill-Accepts = record {
  lasts = omega arith;
  ends = omega arith;
  some_vu = omega arith;
  vus_bounded = omega arith;
}

hill_accepted : validate_ramping (signed_ramp hill) ≡ none
hill_accepted = Accepts-validate_ramping hill hill-Accepts

validate_ramping_iff_example :
    (validate_ramping (signed_ramp hill) ≡ none)
    ↔ ((r : Ramp) × (signed_ramp hill ≡ signed_ramp r) × Accepts r)
validate_ramping_iff_example = validate_ramping_iff (signed_ramp hill)

stages-fit_example : Fits 3 10 2 8_000_000 5_000_000
unfolding max_vus max_vus_from length_from
stages-fit_example =
    stages-fit hill 1 3 10 5_000_000 (record { duration = 8_000_000_000; target = 2 }) hill-Accepts
      (omega arith) refl (omega arith) (omega arith) (omega arith)

abbrev scenarios : List Scenario
scenarios =
    record { start_time = 0; driver = ramping hill }
    ∷ record { start_time = 2_000_000_000; driver = arrival beat }
    ∷ record { start_time = 1_000_000_000; driver = constant 5 9_000_000_000 }
    ∷ []

-- VU 9 waits for its start at 10 s, iterates then, and its context ends while it waits again.
abbrev rounds : List Round
rounds =
    record { cancelled = false; now = pos 5_000_000_000; reached = true }
    ∷ record { cancelled = false; now = pos 10_000_000_000; reached = true }
    ∷ record { cancelled = true; now = pos 10_500_000_000; reached = false }
    ∷ []

drives :
    drive hill 20_000_000_000 9 rounds
    ≡ wait 10_000_000_000 ∷ iterate (some (pos 10_000_001_000)) ∷ quit ∷ []
unfolding drive turn next crossing cross_from cross_segment line ◌+ℤ◌ ◌*ℤ◌ ◌-ℤ◌ crossing_dx ceil_div
    ramp_length length_from
drives = refl
