-- ===== src/Runner.antt =====
-- The step from a resolved scenario to the engine's executor: `executor` of
-- internal/runner/runner.go. The module Run has the rest of that file.
pub mod Accepted
pub mod Action
pub mod Run
mod Tests
use loadtool.Prelude.{List, map, Option, none, some}
use loadtool.Config.Scenario.{
  Kind, constant_vus, ramping_vus, constant_arrival_rate, kind_of, Scenario,
}
use loadtool.Config.Scenario as Scenario
use loadtool.Engine.Executor.{Executor, SignedStage}
use loadtool.Engine.Executor as Executor

-- One pass of the loop over the stages.
abbrev pub engine_stage : Scenario.Stage → SignedStage
engine_stage st = record { duration = st.duration; target = st.target }

-- The `switch`, on the executor's name as a kind.
abbrev pub executor_of : Option Kind → Scenario → Executor
executor_of (some ramping_vus) s = Executor.ramping_vus (record {
  start_vus = s.start_vus;
  stages = map engine_stage s.stages;
  graceful_ramp_down = s.graceful_ramp_down;
})
executor_of (some constant_arrival_rate) s =
    Executor.constant_arrival_rate s.rate s.time_unit s.duration s.pre_allocated_vus
executor_of _ s = Executor.constant_vus s.vus s.duration

unfoldable pub engine_executor : Scenario → Executor
engine_executor s = executor_of (kind_of s.executor) s
