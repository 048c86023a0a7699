-- ===== src/Runner/Accepted.antt =====
-- The two layers agree: on the size of a scenario, and on which scenarios can run.
use Prim.Native.String.{String}
use loadtool.Prelude.{
  ℕ, suc, ◌≡◌, refl, ap, sym, ◌∙◌, List, [], ◌∷◌, map, Option, none, some, false, arith, All,
}
use loadtool.Prelude.Int.{ℤ, pos, ◌≤ℤ◌, add_int64}
use loadtool.Config.Scenario.{
  Stage, Kind, constant_vus, ramping_vus, constant_arrival_rate, kind_of, Scenario, ScenarioOptions,
  max_ℤ, stages_max, stages_length, max_vus, max_vus_of, length_of, scenario_length,
}
use loadtool.Prelude.Result.{ok}
use loadtool.Config.Scenario.Resolve.{resolve_scenario}
use loadtool.Config.Scenario.Valid.{IsStage, IsValid, resolve_scenario-IsValid}
use loadtool.Engine.Executor.{
  Executor, max_ramping_vus, max_length, executor_max_vus, executor_length, negative_from,
  validate_sizes, stage_error, is_empty, validate_ramping, validate,
}
use loadtool.Engine.Executor as Executor
use loadtool.Runner.{engine_stage, executor_of, engine_executor}

stages_max-map :
    (n : ℤ) (sts : List Stage) → Executor.stages_max n (map engine_stage sts) ≡ stages_max n sts
unfolding Executor.stages_max stages_max
stages_max-map n [] = refl
stages_max-map n (st ∷ sts) = stages_max-map (max_ℤ n st.target) sts

stages_length-map :
    (d : ℤ) (sts : List Stage)
    → Executor.stages_length d (map engine_stage sts) ≡ stages_length d sts
unfolding Executor.stages_length stages_length
stages_length-map d [] = refl
stages_length-map d (st ∷ sts) = stages_length-map (add_int64 d st.duration) sts

sizes_of :
    (k : Option Kind) (s : Scenario)
    → (executor_max_vus (executor_of k s) ≡ max_vus_of k s)
      × (executor_length (executor_of k s) ≡ length_of k s)
unfolding executor_max_vus executor_length
sizes_of (some constant_vus) s = (refl, refl)
sizes_of (some ramping_vus) s =
    (stages_max-map s.start_vus s.stages, stages_length-map (pos 0) s.stages)
sizes_of (some constant_arrival_rate) s = (refl, refl)
sizes_of none s = (refl, refl)

-- The engine's executor of a scenario has the MaxVUs and the Length of the scenario, whatever its
-- executor's name is.
pub engine_executor-sizes :
    (s : Scenario)
    → (executor_max_vus (engine_executor s) ≡ max_vus s)
      × (executor_length (engine_executor s) ≡ scenario_length s)
unfolding engine_executor max_vus scenario_length
engine_executor-sizes s = sizes_of (kind_of s.executor) s

negative_from-map :
    (i : ℕ) (sts : List Stage) → All IsStage sts → negative_from i (map engine_stage sts) ≡ none
unfolding negative_from
negative_from-map i [] h = refl
negative_from-map i (st ∷ sts) (h, hs) = ground (arith, negative_from-map (suc i) sts hs)

empty-length :
    (sts : List Stage)
    → pos 1 ≤ℤ stages_length (pos 0) sts
    → is_empty (map engine_stage sts) ≡ false
unfolding stages_length
empty-length [] h = absurd (omega arith)
empty-length (st ∷ sts) h = refl

-- The ramping case, on the two sizes.
ramping-valid :
    (s : Scenario)
    → pos 0 ≤ℤ s.start_vus
    → pos 0 ≤ℤ s.graceful_ramp_down
    → All IsStage s.stages
    → pos 1 ≤ℤ stages_max s.start_vus s.stages
    → stages_max s.start_vus s.stages ≤ℤ pos max_ramping_vus
    → pos 1 ≤ℤ stages_length (pos 0) s.stages
    → stages_length (pos 0) s.stages ≤ℤ pos max_length
    → validate (executor_of (some ramping_vus) s) ≡ none
unfolding validate validate_ramping validate_sizes
ramping-valid s a b c some_vu few lasts ends =
    let full = empty-length s.stages lasts in
    let fine = negative_from-map 1 s.stages c in
    let m = stages_max-map s.start_vus s.stages in
    let l = stages_length-map (pos 0) s.stages in rw (m, l, full, fine) (ground arith)

valid_of :
    (k : Kind) (s : Scenario)
    → IsValid k s
    → max_vus_of (some k) s ≡ max_vus s
    → length_of (some k) s ≡ scenario_length s
    → (k ≡ ramping_vus → (max_vus s ≤ℤ pos max_ramping_vus) × (scenario_length s ≤ℤ pos max_length))
    → validate (executor_of (some k) s) ≡ none
unfolding validate
valid_of constant_vus s v m l h = let (a, b) = v.fields in ground arith
valid_of ramping_vus s v m l h =
    let (a, b, c) = v.fields in
    let (few, ends) = h refl in
    ramping-valid s a b c (rw m v.some_vu) (rw m few) (rw l v.lasts) (rw l ends)
valid_of constant_arrival_rate s v m l h = let (a, b, c, e) = v.fields in ground arith

-- The engine accepts the executor of every scenario that resolveScenario returns, if a ramping one
-- needs at most a million VUs and lasts at most 1000 hours, which only the engine checks.
pub resolve_scenario-validate :
    (name : String) (o : ScenarioOptions) (s : Scenario)
    → resolve_scenario name o ≡ ok s
    → (kind_of s.executor ≡ some ramping_vus
        → (max_vus s ≤ℤ pos max_ramping_vus) × (scenario_length s ≤ℤ pos max_length))
    → validate (engine_executor s) ≡ none
unfolding engine_executor max_vus scenario_length
resolve_scenario-validate name o s h bounds =
    let (k, known, v) = resolve_scenario-IsValid name o s h in
    rw known (
      valid_of k s v (ap (λ k. max_vus_of k s) (sym known)) (ap (λ k. length_of k s) (sym known))
        (λ e. bounds (known ∙ ap some e)))
