-- ===== src/Engine/Ramp/Drive.antt =====
-- A VU's goroutine of RampingVUs.drive, with waitUntil and the deadline of runIteration
-- (internal/engine/executors.go). Offsets are from the scenario's start; before it `now` is negative.
-- `hard_stop` is the offset of the scenario's own deadline. What a round of the loop finds out from
-- its context and the clock is a record, and the rounds are a list.
use loadtool.Prelude.{
  ℕ, ◌+◌, ◌≤◌, ◌<◌, ◌≡◌, Option, none, some, Bool, true, false, ◌&&◌, ◌⊎◌, if◌then◌else◌, List, [],
  ◌∷◌,
}
use loadtool.Prelude.Int.{ℤ, pos, pos_part, ltb_ℤ, leb_ℤ, ◌≤ℤ◌, ◌+ℤ◌, wrap_int64}
use loadtool.Engine.Ramp.{Ramp, Search, found, absent, panic, ramp_length, next}
use loadtool.Engine.Ramp.Finds.{Finds}
use loadtool.Engine.Ramp.Next.{is_active}

-- Return, wait until an offset, or run an iteration, perhaps with a deadline of its own.
pub data Turn : Type 0 where
  quit crash : Turn
  wait : ℕ → Turn
  iterate : Option ℤ → Turn

-- ctx.Err() != nil at the loop's test, the time since the start, and the result of waitUntil if the
-- round waits.
pub record Round : Type 0 where
  pub cancelled : Bool
  pub now : ℤ
  pub reached : Bool

-- off + e.GracefulRampDown, which wraps
abbrev pub ramp_down : Ramp → ℕ → ℤ
ramp_down e off = wrap_int64 (off + e.graceful_ramp_down)

-- runIteration, on the next offset at which the VU is due to be deactivated.
abbrev pub iterate_until : Ramp → ℕ → Search → Turn
iterate_until e hard_stop panic = crash
iterate_until e hard_stop absent = iterate none
iterate_until e hard_stop (found off) =
    if ltb_ℤ (pos off) (ramp_length e) && ltb_ℤ (ramp_down e off) (pos hard_stop)
    then iterate (some (ramp_down e off))
    else iterate none

-- The loop's body, on the next offset at which the VU is active.
abbrev pub turn_on : Ramp → ℕ → ℕ → ℤ → Search → Turn
turn_on e hard_stop i now panic = crash
turn_on e hard_stop i now absent = quit
turn_on e hard_stop i now (found on) =
    if leb_ℤ (ramp_length e) (pos on)
    then quit
    else if ltb_ℤ now (pos on)
    then wait on
    else iterate_until e hard_stop (next e i (pos_part now) false)

-- A round, from the loop's test on.
unfoldable pub turn : Ramp → ℕ → ℕ → Round → Turn
turn e hard_stop i o =
    if o.cancelled
    then quit
    else if leb_ℤ (ramp_length e) o.now
    then quit
    else turn_on e hard_stop i o.now (next e i (pos_part o.now) true)

-- Whether there is another round; a wait that the context ends returns.
abbrev pub continues : Turn → Bool → Bool
continues quit reached = false
continues crash reached = false
continues (wait on) reached = reached
continues (iterate deadline) reached = true

unfoldable pub drive : Ramp → ℕ → ℕ → List Round → List Turn
drive e hard_stop i [] = []
drive e hard_stop i (o ∷ os) =
    let t = turn e hard_stop i o in
    let rest = drive e hard_stop i os in if continues t o.reached then t ∷ rest else t ∷ []

-- VU i is in a state from one offset on, and before another one.
abbrev pub Throughout : Ramp → ℕ → Bool → ℕ → ℕ → Type 0
Throughout e i b lo hi = (s : ℕ) → lo ≤ s → s < hi → is_active e i s ≡ b

-- `off` is the first offset from `lo` on at which VU i is not active, before the stages end.
abbrev pub Leaves : Ramp → ℕ → ℕ → ℕ → Type 0
Leaves e i lo off =
    (off < pos_part (ramp_length e)) × (is_active e i off ≡ false) × Throughout e i true lo off

-- What each turn of VU i in a round means by activeAt.
abbrev pub Follows : Ramp → ℕ → ℕ → Round → Turn → Type 0
Follows e hard_stop i o quit =
    (o.cancelled ≡ true) ⊎ Throughout e i false (pos_part o.now) (pos_part (ramp_length e))
Follows e hard_stop i o crash = ⊥
Follows e hard_stop i o (wait on) =
    (o.cancelled ≡ false)
    × (o.now +ℤ pos 1 ≤ℤ pos on)
    × (on < pos_part (ramp_length e))
    × (is_active e i on ≡ true)
    × Throughout e i false (pos_part o.now) on
Follows e hard_stop i o (iterate none) =
    (o.cancelled ≡ false)
    × (pos 0 ≤ℤ o.now)
    × (is_active e i (pos_part o.now) ≡ true)
    × (Throughout e i true (pos_part o.now) (pos_part (ramp_length e))
        ⊎ ((off : ℕ) × Leaves e i (pos_part o.now) off × (pos hard_stop ≤ℤ ramp_down e off)))
Follows e hard_stop i o (iterate (some deadline)) =
    (o.cancelled ≡ false)
    × (pos 0 ≤ℤ o.now)
    × (is_active e i (pos_part o.now) ≡ true)
    × ((off : ℕ) × Leaves e i (pos_part o.now) off
        × (deadline ≡ ramp_down e off)
        × (deadline +ℤ pos 1 ≤ℤ pos hard_stop))

-- Each turn follows in its round; the last one is the one that does not go on, if there is one.
abbrev pub Drives : Ramp → ℕ → ℕ → List Round → List Turn → Type 0
Drives e hard_stop i [] [] = Unit
Drives e hard_stop i [] (t ∷ ts) = ⊥
Drives e hard_stop i (o ∷ os) [] = ⊥
Drives e hard_stop i (o ∷ os) (t ∷ ts) =
    Follows e hard_stop i o t
    × (((continues t o.reached ≡ true) × Drives e hard_stop i os ts)
        ⊎ ((continues t o.reached ≡ false) × (ts ≡ [])))
