-- ===== src/Config/Scenario/Valid.antt =====
-- What a resolved scenario guarantees.
use Prim.Native.String.{String}
use loadtool.Prelude.{
  ℕ, suc, ◌≡◌, ◌≢◌, ap, sym, ◌∙◌, subst, List, [], ◌∷◌, Option, none, some, true, false, ◌||◌,
  arith, All, Bool-cases, inl, inr,
}
use loadtool.Prelude.Int.{pos, ltb_ℤ, ◌≤ℤ◌}
use loadtool.Prelude.Result.{ok, refuse, >>=-eq-ok, refuse-eq-ok, Result-cases}
use loadtool.Config.Scenario.{
  Stage, Kind, constant_vus, ramping_vus, constant_arrival_rate, kind_of, Scenario, max_vus,
  scenario_length, ScenarioOptions, Field, sorted_fields, set_of, allowed, negative_times,
}
use loadtool.Config.Scenario.Resolve.{
  resolve_exec, misplaced, check_fields, check_executor, resolve_constant, copy_stages,
  check_stages, resolve_ramping, resolve_arrival, resolve_kind, base, resolve_scenario,
}

-- Its stages are not negative.
abbrev pub IsStage : Stage → Type 0
IsStage st = (pos 0 ≤ℤ st.duration) × (pos 0 ≤ℤ st.target)

-- The fields of the executor `k`.
abbrev pub KindFields : Kind → Scenario → Type 0
KindFields constant_vus s = (pos 1 ≤ℤ s.vus) × (pos 1 ≤ℤ s.duration)
KindFields ramping_vus s =
    (pos 0 ≤ℤ s.start_vus) × (pos 0 ≤ℤ s.graceful_ramp_down) × All IsStage s.stages
KindFields constant_arrival_rate s =
    (pos 1 ≤ℤ s.rate)
    × (pos 1 ≤ℤ s.time_unit)
    × (pos 1 ≤ℤ s.duration)
    × (pos 1 ≤ℤ s.pre_allocated_vus)

pub record IsValid (k : Kind) (s : Scenario) : Type 0 where
  pub starts : pos 0 ≤ℤ s.start_time
  pub stops : pos 0 ≤ℤ s.graceful_stop
  pub some_vu : pos 1 ≤ℤ max_vus s
  pub lasts : pos 1 ≤ℤ scenario_length s
  pub fields : KindFields k s

constant-IsValid :
    (o : ScenarioOptions) (b s : Scenario)
    → kind_of b.executor ≡ some constant_vus
    → pos 0 ≤ℤ b.start_time
    → pos 0 ≤ℤ b.graceful_stop
    → resolve_constant o b ≡ ok s
    → IsValid constant_vus s × (s.executor ≡ b.executor)
unfolding resolve_constant max_vus scenario_length
constant-IsValid o b s k p q h = ground arith

arrival-IsValid :
    (o : ScenarioOptions) (b s : Scenario)
    → kind_of b.executor ≡ some constant_arrival_rate
    → pos 0 ≤ℤ b.start_time
    → pos 0 ≤ℤ b.graceful_stop
    → resolve_arrival o b ≡ ok s
    → IsValid constant_arrival_rate s × (s.executor ≡ b.executor)
unfolding resolve_arrival max_vus scenario_length
arrival-IsValid o b s k p q h = ground arith

copy_stages-ok :
    (i : ℕ) (sts : List Stage) {r : List Stage}
    → copy_stages i sts ≡ ok r
    → (r ≡ sts) × All IsStage sts
unfolding copy_stages
copy_stages-ok i [] h = (ground arith, tt)
copy_stages-ok i (st ∷ sts) h =
    elim (Bool-cases (ltb_ℤ st.duration (pos 0) || ltb_ℤ st.target (pos 0))) [
      | inl e ↦ ground arith
      | inr e ↦
          let (r, found, built) =
            >>=-eq-ok (copy_stages (suc i) sts) (λ r. ok (st ∷ r)) (rw e at h) in
          let (same, all) = copy_stages-ok (suc i) sts found in
          ((cc), ((ground arith, ground arith), all))
    ]

check_stages-ok :
    (o : Option (List Stage)) {r : List Stage}
    → check_stages o ≡ ok r
    → (o ≡ some r) × All IsStage r
check_stages-ok none h = ground arith
check_stages-ok (some []) h = ground arith
check_stages-ok (some (st ∷ sts)) h =
    let (same, all) = copy_stages-ok 1 (st ∷ sts) h in
    (ap some (sym same), subst (All IsStage) (sym same) all)

ramping-IsValid :
    (o : ScenarioOptions) (b s : Scenario)
    → kind_of b.executor ≡ some ramping_vus
    → pos 0 ≤ℤ b.start_time
    → pos 0 ≤ℤ b.graceful_stop
    → resolve_ramping o b ≡ ok s
    → IsValid ramping_vus s × (s.executor ≡ b.executor)
unfolding resolve_ramping max_vus scenario_length
ramping-IsValid o b s k p q h = elim (Result-cases (check_stages o.stages)) [
  | inl (sts, e) ↦
      let all = (check_stages-ok o.stages e).1 in
      let valid : (s : Scenario) → s.stages ≡ sts → All IsStage s.stages =
        λ s e. subst (All IsStage) (sym e) all in
      ground (arith, e, valid s)
  | inr (x, e) ↦ ground (arith, e)
]

resolve_kind-IsValid :
    (k : Kind) (o : ScenarioOptions) (b s : Scenario)
    → kind_of b.executor ≡ some k
    → pos 0 ≤ℤ b.start_time
    → pos 0 ≤ℤ b.graceful_stop
    → resolve_kind k o b ≡ ok s
    → IsValid k s × (s.executor ≡ b.executor)
resolve_kind-IsValid constant_vus = constant-IsValid
resolve_kind-IsValid ramping_vus = ramping-IsValid
resolve_kind-IsValid constant_arrival_rate = arrival-IsValid

-- What a successful resolveScenario has gone through.
pub record Steps (name : String) (o : ScenarioOptions) (s : Scenario) : Type 0 where
  pub exec : String
  pub kind : Kind
  pub known : kind_of o.executor ≡ some kind
  pub placed : misplaced kind o sorted_fields ≡ none
  pub starts : pos 0 ≤ℤ (base name o exec).start_time
  pub stops : pos 0 ≤ℤ (base name o exec).graceful_stop
  pub resolved : resolve_kind kind o (base name o exec) ≡ ok s

pub resolve_scenario-Steps :
    (name : String) (o : ScenarioOptions) {s : Scenario}
    → resolve_scenario name o ≡ ok s
    → Steps name o s
unfolding resolve_scenario
resolve_scenario-Steps name o h =
    let (exec, _, h1) = >>=-eq-ok (resolve_exec o.exec) _ h in
    let b = base name o exec in
    let early = ltb_ℤ b.start_time (pos 0) || ltb_ℤ b.graceful_stop (pos 0) in
    let (_, times, h2) = >>=-eq-ok (refuse early negative_times) _ h1 in
    let (k, known, h3) = >>=-eq-ok (check_executor o.executor (kind_of o.executor)) _ h2 in
    let (_, placed, h4) = >>=-eq-ok (check_fields (misplaced k o sorted_fields)) _ h3 in
    let signs = refuse-eq-ok early negative_times times in
    record {
      exec = exec;
      kind = k;
      known = ground (arith, known);
      placed = ground (arith, placed);
      starts = ground (arith, signs);
      stops = ground (arith, signs);
      resolved = h4;
    }

-- A scenario that resolveScenario returns belongs to one of the three executors, and is valid for
-- it: no time is negative, it needs at least one VU, it lasts, and the fields of its executor are in
-- range.
pub resolve_scenario-IsValid :
    (name : String) (o : ScenarioOptions) (s : Scenario)
    → resolve_scenario name o ≡ ok s
    → (k : Kind) × (kind_of s.executor ≡ some k) × IsValid k s
resolve_scenario-IsValid name o s h =
    let t = resolve_scenario-Steps name o h in
    let (v, same) =
      resolve_kind-IsValid t.kind o (base name o t.exec) s t.known t.starts t.stops t.resolved in
    (t.kind, ap kind_of same ∙ t.known, v)

misplaced-none :
    (k : Kind) (o : ScenarioOptions) (fs : List Field)
    → misplaced k o fs ≡ none
    → All (λ f. set_of o f ≡ true → allowed k f ≡ true) fs
unfolding misplaced
misplaced-none k o [] h = tt
misplaced-none k o (f ∷ fs) h = (ground arith, misplaced-none k o fs (ground arith))

fields-All : (P : Field → Type 0) → All P sorted_fields → (f : Field) → P f
fields-All P all Field.duration = all.0
fields-All P all Field.graceful_ramp_down = all.1.0
fields-All P all Field.max_vus_field = all.1.1.0
fields-All P all Field.pre_allocated_vus = all.1.1.1.0
fields-All P all Field.rate = all.1.1.1.1.0
fields-All P all Field.stages = all.1.1.1.1.1.0
fields-All P all Field.start_vus = all.1.1.1.1.1.1.0
fields-All P all Field.time_unit = all.1.1.1.1.1.1.1.0
fields-All P all Field.vus = all.1.1.1.1.1.1.1.1.0

-- A field that the script sets for another executor is never ignored: with it the scenario is not
-- resolved.
pub resolve_scenario-misplaced :
    (name : String) (o : ScenarioOptions) (k : Kind) (f : Field) (s : Scenario)
    → kind_of o.executor ≡ some k
    → set_of o f ≡ true
    → allowed k f ≡ false
    → resolve_scenario name o ≢ ok s
resolve_scenario-misplaced name o k f s known set foreign h =
    let t = resolve_scenario-Steps name o h in
    let same : t.kind ≡ k = cc (t.known, known) in
    let fits =
      fields-All (λ f. set_of o f ≡ true → allowed t.kind f ≡ true)
        (misplaced-none t.kind o sorted_fields t.placed) f set in
    let fits' : allowed k f ≡ true = ap (λ k. allowed k f) (sym same) ∙ fits in cc
