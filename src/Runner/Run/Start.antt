-- ===== src/Runner/Run/Start.antt =====
-- The creation of the VUs: engineScenarios (internal/runner/runner.go) under the loops of
-- RunScenariosSampled (internal/engine/scenario.go), the load phase after it, and the closing of the
-- VUs.
use Prim.Native.String.{String}
use loadtool.Prelude.{
  ℕ, zero, suc, ◌+◌, List, [], ◌∷◌, ◌++◌, map, length, Option, none, some, Bool, true, false,
}
use loadtool.Prelude.Int.{ℤ, pos, pos_part, ◌+ℤ◌}
use loadtool.Prelude.Result.{Result, ok, err}
use loadtool.Config.Scenario.{Scenario, max_vus}
use loadtool.Engine.Executor.{executor_max_vus, validate}
use loadtool.Engine.Executor as Executor
use loadtool.Script.{Program, is_prepared}
use loadtool.Runner.{engine_executor}
use loadtool.Runner.Run.{
  Host, Warning, not_closed_vu, Load, Call, vu_init, close_vu, StartError, no_scenarios,
  context_ended, bad_scenario, vu_failed, vu_not_prepared, failing_call,
}

module _ (h : Host) where
  open h use {World, Code, Vm, Data, Failure, run_init, close_vm, cancelled}

  -- A VU with its number.
  abbrev pub Vu : Type 0
  Vu = ℤ × Vm

  -- What the creation has come to: the VUs so far, and the error that ended it.
  pub record Started : Type 0 where
    pub vus : List Vu
    pub error : Option (StartError Failure)
    pub world : World
    pub calls : List Call

  abbrev pub stopped : Option (StartError Failure) → World → Started
  stopped e w = record { vus = []; error = e; world = w; calls = [] }

  -- What is created next, unless an error has ended the creation.
  abbrev pub go_on : Option (StartError Failure) → (World → Started) → World → Started
  go_on (some e) next = stopped (some e)
  go_on none next = next

  abbrev pub then_start : Started → (World → Started) → Started
  then_start a next =
      let b = go_on a.error next a.world in
      record { vus = a.vus ++ b.vus; error = b.error; world = b.world; calls = a.calls ++ b.calls }

  -- NewVUExec
  abbrev pub create_if :
      Bool → Program Code Data → ℤ → String → ℕ → World → Result (StartError Failure) Vm × World
  create_if true prog id exec n w = failing_call (vu_failed n) (run_init prog id exec) w
  create_if false prog id exec n w = (err (vu_not_prepared n exec), w)

  abbrev pub created : ℤ → Result (StartError Failure) Vm × World → Started
  created id (ok vm, w) = record {
    vus = (id, vm) ∷ [];
    error = none;
    world = w;
    calls = vu_init id true ∷ [];
  }
  created id (err e, w) = record {
    vus = [];
    error = some e;
    world = w;
    calls = vu_init id false ∷ [];
  }

  -- NewVU, which appends the VU to `vus`, after the look at the context.
  abbrev pub new_vu : Bool → Program Code Data → ℤ → String → ℕ → World → Started
  new_vu true prog id exec n w = stopped (some context_ended) w
  new_vu false prog id exec n w = created id (create_if (is_prepared prog exec) prog id exec n w)

  -- The VUs of a scenario from the one with index `j` on, of which `k` are left; `total` VUs precede
  -- the scenario.
  unfoldable pub start_vus : Program Code Data → ℤ → String → ℕ → ℕ → ℕ → World → Started
  start_vus prog base exec total j zero w = stopped none w
  start_vus prog base exec total j (suc k) w =
      then_start (new_vu (cancelled w) prog (base +ℤ pos j) exec (total + j) w)
        (start_vus prog base exec total (suc j) k)

  -- make of a length below 0 would panic; validate has refused it then.
  abbrev pub vu_count : Scenario → ℕ
  vu_count s = pos_part (executor_max_vus (engine_executor s))

  abbrev pub start_valid :
      Option Executor.Error → Program Code Data → Scenario → ℤ → ℕ → World → Started
  start_valid (some e) prog s first total = stopped (some (bad_scenario s.name e))
  start_valid none prog s first total = start_vus prog first s.exec total 0 (vu_count s)

  unfoldable pub start_scenarios : Program Code Data → List Scenario → ℤ → ℕ → World → Started
  start_scenarios prog [] first total w = stopped none w
  start_scenarios prog (s ∷ ss) first total w =
      then_start (start_valid (validate (engine_executor s)) prog s first total w)
        (start_scenarios prog ss (first +ℤ max_vus s) (total + vu_count s))

  unfoldable pub start_all : Program Code Data → List Scenario → World → Started
  start_all prog [] w = stopped (some no_scenarios) w
  start_all prog (s ∷ ss) w = start_scenarios prog (s ∷ ss) (pos 1) 0 w

  -- RunScenariosSampled.
  pub record Engined : Type 0 where
    pub vus : List Vu
    pub result : Result (StartError Failure) Load
    pub world : World
    pub calls : List Call

  abbrev pub vm_of : Vu → Vm
  vm_of v = v.1

  abbrev pub with_load : List Vu → List Call → Load × World → Engined
  with_load vus calls (load, w) = record {
    vus = vus;
    result = ok load;
    world = w;
    calls = calls ++ (Call.load_phase (length vus) ∷ []);
  }

  abbrev pub load_after : List Scenario → Option (StartError Failure) → Started → Engined
  load_after ss (some e) a = record {
    vus = a.vus;
    result = err e;
    world = a.world;
    calls = a.calls;
  }
  load_after ss none a = with_load a.vus a.calls (h.load_phase ss (map vm_of a.vus) a.world)

  unfoldable pub run_engine : Program Code Data → List Scenario → World → Engined
  run_engine prog ss w = let a = start_all prog ss w in load_after ss a.error a

  -- closeAndWarn, on the result of the close.
  abbrev pub warned :
      Option (Warning Failure → World → World)
      → (Failure → Warning Failure)
      → Option Failure × World
      → World
  warned (some warn) problem (some e, w) = warn (problem e) w
  warned none problem (some e, w) = w
  warned warn problem (none, w) = w

  unfoldable pub close_vus : Option (Warning Failure → World → World) → List Vu → World → World
  close_vus warn [] w = w
  close_vus warn (v ∷ vs) w = close_vus warn vs (warned warn (not_closed_vu v.0) (close_vm v.1 w))

  abbrev pub close_call : Vu → Call
  close_call v = close_vu v.0
