-- ===== src/Engine/Arrival.antt =====
-- ConstantArrivalRate (internal/engine/executors.go): the schedule of starts, and the scheduler with
-- the VUs as a step relation. Offsets and durations are nanoseconds, which validate has found to be
-- positive.
pub mod Schedule
pub mod Tokens
use loadtool.Prelude.{ℕ, ◌+◌, ◌-◌, ◌*◌, ◌<◌, ◌≡◌, Bool, true, false, ltb, if◌then◌else◌}
use loadtool.Prelude.Int.{ℤ, pos, ltb_ℤ, wrap_int64, quot_ℤ}

pub record ArrivalRate : Type 0 where
  pub rate : ℕ
  pub time_unit : ℕ
  pub duration : ℕ
  pub pre_allocated_vus : ℕ

-- When start k is due, from the scenario's start: the product is one of int64s.
unfoldable pub offset : ArrivalRate → ℕ → ℤ
offset e k = quot_ℤ (wrap_int64 (k * e.time_unit)) e.rate

-- Start k is due before stopStarting.
abbrev pub due : ArrivalRate → ℕ → Bool
due e k = ltb_ℤ (offset e k) (pos e.duration)

unfoldable pub arrival_active_at : ArrivalRate → ℕ → ℕ
arrival_active_at e t = if ltb t e.duration then e.pre_allocated_vus else 0

-- A running scenario. `k` starts have been decided, `idle` tokens are in the channel, `busy` VUs
-- have been handed a start and have not returned their token; `lost` is the token that a
-- cancelled hand-over took. `running` until the scheduler returns.
pub record Run : Type 0 where
  pub k : ℕ
  pub idle : ℕ
  pub busy : ℕ
  pub finished : ℕ
  pub dropped : ℕ
  pub lost : ℕ
  pub running : Bool
  pub cancelled : Bool

-- One token for each VU, filled before the clock starts.
unfoldable pub begin_run : ArrivalRate → Run
begin_run e = record {
  k = 0;
  idle = e.pre_allocated_vus;
  busy = 0;
  finished = 0;
  dropped = 0;
  lost = 0;
  running = true;
  cancelled = false;
}

-- What can happen next: the scheduler's round for start k, a VU that ends its iteration, the
-- cancellation of the context, and the scheduler's return.
pub data Step (e : ArrivalRate) (s u : Run) : Type 0 where
  -- A token is taken without blocking and the start handed over.
  hand_over :
      s.running ≡ true
      → due e s.k ≡ true
      → 0 < s.idle
      → u ≡ record s { k = s.k + 1; idle = s.idle - 1; busy = s.busy + 1 }
      → Step e s u
  -- No token: the start is counted as dropped.
  drop :
      s.running ≡ true
      → due e s.k ≡ true
      → s.idle ≡ 0
      → u ≡ record s { k = s.k + 1; dropped = s.dropped + 1 }
      → Step e s u
  -- An iteration ends and its VU returns the token.
  finish :
      0 < s.busy
      → u ≡ record s { busy = s.busy - 1; idle = s.idle + 1; finished = s.finished + 1 }
      → Step e s u
  -- Start k is not before stopStarting: the scheduler returns.
  exhaust : s.running ≡ true → due e s.k ≡ false → u ≡ record s { running = false } → Step e s u
  cancel : u ≡ record s { cancelled = true } → Step e s u
  -- The scheduler sees the cancellation while it waits.
  quit : s.running ≡ true → s.cancelled ≡ true → u ≡ record s { running = false } → Step e s u
  -- The scheduler sees the cancellation with a token in hand.
  abandon :
      s.running ≡ true
      → s.cancelled ≡ true
      → due e s.k ≡ true
      → 0 < s.idle
      → u ≡ record s { idle = s.idle - 1; lost = s.lost + 1; running = false }
      → Step e s u

pub data Reach (e : ArrivalRate) : Run → Type 0 where
  begin : Reach e (begin_run e)
  then : {s u : Run} → Reach e s → Step e s u → Reach e u
