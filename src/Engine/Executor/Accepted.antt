-- ===== src/Engine/Executor/Accepted.antt =====
-- What validate lets through: sizes that are not negative, so the accepted executor is given by
-- plain numbers.
use loadtool.Prelude.{
  subst, ◌↔◌, ℕ, suc, ◌+◌, ◌≤◌, ◌≡◌, refl, sym, ap, ap₂, ◌∙◌, max, List, [], ◌∷◌, map, none, false,
  arith,
}
use loadtool.Prelude.Int.{ℤ, pos, negsuc, ltb_ℤ, ◌≤ℤ◌, wrap_int64, add_int64-wrap}
use loadtool.Engine.Ramp.{Stage, Ramp, max_vus_from, max_vus, length_from, ramp_length}
use loadtool.Engine.Executor.{
  SignedStage, RampingVus, max_ℤ, stages_max, stages_length, max_ramping_vus, max_length,
  negative_from, validate_sizes, validate_ramping, is_empty,
}

abbrev pub signed_stage : Stage → SignedStage
signed_stage st = record { duration = pos st.duration; target = pos st.target }

-- The executor whose fields are the numbers of `r`.
abbrev pub signed_ramp : Ramp → RampingVus
signed_ramp r = record {
  start_vus = pos r.start_vus;
  stages = map signed_stage r.stages;
  graceful_ramp_down = pos r.graceful_ramp_down;
}

ℤ-sign : (z : ℤ) → ltb_ℤ z (pos 0) ≡ false → (n : ℕ) × (z ≡ pos n)
ℤ-sign (pos n) h = (n, refl)
ℤ-sign (negsuc n) h = absurd (ground arith)

stage-signed :
    (st : SignedStage) (d t : ℕ)
    → st.duration ≡ pos d
    → st.target ≡ pos t
    → st ≡ signed_stage (record { duration = d; target = t })
stage-signed st d t e f = λ i. record { duration = e i; target = f i }

negative_from-none :
    (i : ℕ) (sts : List SignedStage)
    → negative_from i sts ≡ none
    → (rs : List Stage) × (sts ≡ map signed_stage rs)
unfolding negative_from
negative_from-none i [] h = ([], refl)
negative_from-none i (st ∷ sts) h =
    let (d, e) = ℤ-sign st.duration (ground arith) in
    let (t, f) = ℤ-sign st.target (ground arith) in
    let (rs, g) = negative_from-none (suc i) sts (ground arith) in
    (record { duration = d; target = t } ∷ rs, ap₂ ◌∷◌ (stage-signed st d t e f) g)

negative_from-signed : (i : ℕ) (rs : List Stage) → negative_from i (map signed_stage rs) ≡ none
unfolding negative_from
negative_from-signed i [] = refl
negative_from-signed i (r ∷ rs) = ground (arith, negative_from-signed (suc i) rs)

stages_max-signed :
    (n : ℕ) (rs : List Stage) → stages_max (pos n) (map signed_stage rs) ≡ pos (max_vus_from n rs)
unfolding stages_max max_vus_from
stages_max-signed n [] = refl
stages_max-signed n (r ∷ rs) =
    let e : max_ℤ (pos n) (pos r.target) ≡ pos (max n r.target) = ground arith in
    ap (λ z. stages_max z (map signed_stage rs)) e ∙ stages_max-signed (max n r.target) rs

stages_length-signed :
    (d : ℕ) (rs : List Stage)
    → stages_length (wrap_int64 d) (map signed_stage rs) ≡ wrap_int64 (length_from d rs)
unfolding stages_length length_from
stages_length-signed d [] = refl
stages_length-signed d (r ∷ rs) =
    ap (λ z. stages_length z (map signed_stage rs)) (add_int64-wrap d r.duration)
    ∙ stages_length-signed (d + r.duration) rs

-- A ramp of whole numbers that validate lets through.
pub record Accepts (r : Ramp) : Type 0 where
  pub lasts : pos 1 ≤ℤ ramp_length r
  pub ends : ramp_length r ≤ℤ pos max_length
  pub some_vu : 1 ≤ max_vus r
  pub vus_bounded : max_vus r ≤ max_ramping_vus

sizes-signed :
    (r : Ramp)
    → (stages_length (pos 0) (signed_ramp r).stages ≡ ramp_length r)
      × (stages_max (signed_ramp r).start_vus (signed_ramp r).stages ≡ pos (max_vus r))
unfolding ramp_length max_vus
sizes-signed r = (stages_length-signed 0 r.stages, stages_max-signed r.start_vus r.stages)

sizes-Accepts : (r : Ramp) → validate_sizes (signed_ramp r) ≡ none → Accepts r
unfolding validate_sizes
sizes-Accepts r h = let (l, m) = sizes-signed r in ground arith

-- validate lets a RampingVUs through only if its fields are not negative and in these ranges.
pub validate_ramping-Accepts :
    (e : RampingVus) → validate_ramping e ≡ none → (r : Ramp) × (e ≡ signed_ramp r) × Accepts r
unfolding validate_ramping
validate_ramping-Accepts e h =
    let (n, a) = ℤ-sign e.start_vus (ground arith) in
    let (g, b) = ℤ-sign e.graceful_ramp_down (ground arith) in
    let (rs, c) = negative_from-none 1 e.stages (ground arith) in
    let r : Ramp = record { start_vus = n; stages = rs; graceful_ramp_down = g } in
    let eq : e ≡ signed_ramp r =
      λ i. record { start_vus = a i; stages = c i; graceful_ramp_down = b i } in
    (r, eq, sizes-Accepts r (ap validate_sizes (sym eq) ∙ ground arith))

length_from-none : (r : Ramp) → pos 1 ≤ℤ ramp_length r → is_empty (signed_ramp r).stages ≡ false
unfolding ramp_length length_from
length_from-none r h = empty r.stages h
  where
    empty :
        (rs : List Stage)
        → pos 1 ≤ℤ wrap_int64 (length_from 0 rs)
        → is_empty (map signed_stage rs) ≡ false
    empty [] h = absurd (ground arith)
    empty (r ∷ rs) h = refl

-- validate lets every RampingVUs through whose fields are not negative and in these ranges.
pub Accepts-validate_ramping : (r : Ramp) → Accepts r → validate_ramping (signed_ramp r) ≡ none
unfolding validate_ramping validate_sizes
Accepts-validate_ramping r v =
    let (l, m) = sizes-signed r in
    ground (arith, length_from-none r v.lasts, negative_from-signed 1 r.stages)

-- validate lets a RampingVUs through exactly if its counts and durations are not negative, the sum
-- of the stages' durations as an int64, which wraps, is above 0 and at most 1000 hours, and it needs
-- at least one and at most a million VUs.
pub validate_ramping_iff :
    (e : RampingVus) → (validate_ramping e ≡ none) ↔ ((r : Ramp) × (e ≡ signed_ramp r) × Accepts r)
validate_ramping_iff e = (
  validate_ramping-Accepts e,
  λ (r, same, v). subst (λ x. validate_ramping x ≡ none) (sym same) (Accepts-validate_ramping r v),
)
