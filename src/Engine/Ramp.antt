-- ===== src/Engine/Ramp.antt =====
-- The stage arithmetic of RampingVUs (internal/engine/executors.go). Durations and offsets are
-- nanoseconds. A `Ramp` holds the fields of a RampingVUs that validate has accepted, which are
-- not negative (Executor.Accepted shows that nothing is lost); differences are integers. Length wraps;
-- the ends of the stages in crossing and activeAt are exact sums, as in the code while Length does not
-- wrap.
pub mod Line
pub mod Segment
pub mod Crossing
pub mod Finds
pub mod Next
pub mod Active
pub mod Drive
use loadtool.Prelude.{
  ℕ, zero, suc, ◌+◌, ◌-◌, ◌*◌, ◌/◌, max, List, [], ◌∷◌, Option, none, some, Bool, true, false, ◌&&◌,
  not, ltb, leb, ◌==◌, if◌then◌else◌,
}
use loadtool.Prelude.Int.{
  ℤ, pos, negsuc, ◌+ℤ◌, ◌-ℤ◌, ◌*ℤ◌, leb_ℤ, ltb_ℤ, pos_part, div_ℤ, wrap_int64,
}

pub record Stage : Type 0 where
  pub duration : ℕ
  pub target : ℕ

pub record Ramp : Type 0 where
  pub start_vus : ℕ
  pub stages : List Stage
  pub graceful_ramp_down : ℕ

-- time.Duration.Microseconds of a duration that is not negative
abbrev pub microseconds : ℕ → ℕ
microseconds d = d / 1000

unfoldable pub max_vus_from : ℕ → List Stage → ℕ
max_vus_from n [] = n
max_vus_from n (st ∷ sts) = max_vus_from (max n st.target) sts

unfoldable pub max_vus : Ramp → ℕ
max_vus e = max_vus_from e.start_vus e.stages

unfoldable pub length_from : ℕ → List Stage → ℕ
length_from d [] = d
length_from d (st ∷ sts) = length_from (d + st.duration) sts

-- Length, whose sum of durations wraps.
unfoldable pub ramp_length : Ramp → ℤ
ramp_length e = wrap_int64 (length_from 0 e.stages)

-- How the search for a crossing ends: at an offset, with no such offset, or with the panic of a
-- division by zero.
pub data Search : Type 0 where
  found : ℕ → Search
  absent : Search
  panic : Search

-- from*d + (to-from)*x: the stage line at `x`, times `d`
unfoldable pub line : ℕ → ℕ → ℕ → ℕ → ℤ
line from to d x = pos (from * d) +ℤ (pos to -ℤ pos from) *ℤ pos x

unfoldable pub ceil_div : ℤ → ℤ → Option ℤ
ceil_div a b = div_ℤ (a +ℤ b -ℤ pos 1) b

abbrev pub plus_one : Option ℤ → Option ℤ
plus_one none = none
plus_one (some q) = some (q +ℤ pos 1)

-- The `switch` that computes dx, with -1 for no crossing.
unfoldable pub crossing_dx : Bool → ℕ → ℕ → ℕ → ℕ → Option ℤ
crossing_dx want level from to d =
    if want && leb level to
    then ceil_div ((pos level -ℤ pos from) *ℤ pos d) (pos to -ℤ pos from)
    else if not want && ltb to level
    then plus_one (div_ℤ ((pos from -ℤ pos level) *ℤ pos d) (pos from -ℤ pos to))
    else some (negsuc 0)

abbrev pub same : Bool → Bool → Bool
same true b = b
same false b = not b

-- The test of dx, and the offset of the crossing.
abbrev pub take_dx : ℕ → ℕ → Option ℤ → Search
take_dx seg_start d none = panic
take_dx seg_start d (some dx) =
    if leb_ℤ (pos 0) dx && ltb_ℤ dx (pos d) then found (seg_start + pos_part dx * 1000) else absent

-- The body of the loop for a stage that lasts and ends after `t`.
unfoldable pub cross_segment : ℕ → ℕ → Stage → ℕ → ℕ → Bool → Search
cross_segment seg_start from st level t want =
    let lo = max t seg_start in
    let d = microseconds st.duration in
    let x = microseconds (lo - seg_start) in
    if same (leb_ℤ (pos (level * d)) (line from st.target d x)) want
    then found lo
    else take_dx seg_start d (crossing_dx want level from st.target d)

abbrev pub or_search : Search → Search → Search
or_search (found at) rest = found at
or_search absent rest = rest
or_search panic rest = panic

unfoldable pub cross_from : List Stage → ℕ → ℕ → ℕ → ℕ → Bool → Search
cross_from [] seg_start from level t want = absent
cross_from (st ∷ sts) seg_start from level t want =
    let seg_end = seg_start + st.duration in
    let rest = cross_from sts seg_end st.target level t want in
    if ltb 0 st.duration && ltb t seg_end
    then or_search (cross_segment seg_start from st level t want) rest
    else rest

unfoldable pub crossing : Ramp → ℕ → ℕ → Bool → Search
crossing e i t want = cross_from e.stages 0 e.start_vus (i + 1) t want

abbrev pub before_end : ℤ → Search → Search
before_end length (found at) = if leb_ℤ length (pos at) then absent else found at
before_end length absent = absent
before_end length panic = panic

unfoldable pub next : Ramp → ℕ → ℕ → Bool → Search
next e i t want = before_end (ramp_length e) (crossing e i t want)

-- `none` is the panic of a division by zero. `t` is never before `seg_start`.
unfoldable pub active_from : List Stage → ℕ → ℕ → ℕ → Option ℤ
active_from [] seg_start from t = some (pos 0)
active_from (st ∷ sts) seg_start from t =
    let seg_end = seg_start + st.duration in
    let d = microseconds st.duration in
    let x = microseconds (t - seg_start) in
    let rest = active_from sts seg_end st.target t in
    if ltb 0 st.duration && ltb t seg_end then div_ℤ (line from st.target d x) (pos d) else rest

unfoldable pub active_at : Ramp → ℕ → Option ℤ
active_at e t = active_from e.stages 0 e.start_vus t
