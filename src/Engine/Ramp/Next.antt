-- ===== src/Engine/Ramp/Next.antt =====
-- `next` against `activeAt`: it returns the first offset at which a VU is in the wanted state.
use loadtool.Prelude.{ℕ, ◌+◌, Bool}
use loadtool.Engine.Ramp.{Ramp, active_at}
use loadtool.Engine.Ramp.Finds.{Finds, at_least}

-- VU i is active at `s`: the number of active VUs is at least i+1.
abbrev pub is_active : Ramp → ℕ → ℕ → Bool
is_active e i s = at_least (i + 1) (active_at e s)
