-- ===== src/Runner/Run/Numbered.antt =====
-- The numbers of the VUs.
use Prim.Native.String.{String}
use mathlib.Core.List.{append-nil}
use loadtool.Prelude.{
  ◌⊎◌, inl, inr, ◌≡◌, refl, sym, ap, subst, ◌∙◌, ℕ, zero, suc, ◌+◌, ◌≤◌, List, [], ◌∷◌, ◌++◌, map,
  sum, Option, none, some, Bool, true, false, arith,
}
use loadtool.Prelude.Int.{ℤ, pos, pos_part, ◌+ℤ◌, ◌≤ℤ◌, int_laws}
use loadtool.Prelude.Result.{Result, ok, err}
use loadtool.Config.Scenario.{Scenario, max_vus}
use loadtool.Engine.Executor.{
  Executor, constant_vus, ramping_vus, constant_arrival_rate, executor_max_vus, validate,
  validate_ramping, validate_sizes, stages_max, negative_from,
}
use loadtool.Engine.Executor as Executor
use loadtool.Script.{Program, is_prepared}
use loadtool.Runner.{engine_executor}
use loadtool.Runner.Accepted.{engine_executor-sizes}
use loadtool.Runner.Run.{Host, StartError, no_scenarios}
use loadtool.Runner.Run.Start.{
  vm_of, Started, go_on, then_start, create_if, created, new_vu, start_vus, vu_count, start_valid,
  start_scenarios, start_all, load_after, run_engine,
}
use loadtool.Runner.Run.Legal.Started.{ids, ids-append}

abbrev pub count_up : ℤ → ℕ → List ℤ
count_up a zero = []
count_up a (suc k) = a ∷ count_up (a +ℤ pos 1) k

shift : (a : ℤ) (j : ℕ) → a +ℤ pos 1 +ℤ pos j ≡ a +ℤ pos (suc j)
shift a j = grind int_laws

shift_zero : (a : ℤ) → a +ℤ pos 0 ≡ a
shift_zero a = grind int_laws

count_up-append : (a : ℤ) (k l : ℕ) → count_up a k ++ count_up (a +ℤ pos k) l ≡ count_up a (k + l)
count_up-append a zero l = let e = shift_zero a in rw e (ap (count_up a) (omega arith))
count_up-append a (suc k) l =
    let e = shift a k in
    let h = count_up-append (a +ℤ pos 1) k l in
    let n : suc k + l ≡ suc (k + l) = omega arith in rw n (rw (sym e) (ap (λ x. a ∷ x) h))

-- What the engine accepts has at least one VU.
validate-some_vu : (e : Executor) → validate e ≡ none → pos 1 ≤ℤ executor_max_vus e
unfolding validate executor_max_vus validate_ramping validate_sizes
validate-some_vu (constant_vus vus duration) h = ground arith
validate-some_vu (ramping_vus e) h = ground arith
validate-some_vu (constant_arrival_rate rate unit duration vus) h = ground arith

eq_pos : (a : ℤ) → pos 1 ≤ℤ a → a ≡ pos (pos_part a)
eq_pos a some_vu = grind int_laws

module _ (h : Host) where
  open h use {World, Code, Vm, Data, Failure}

  -- The VUs created are numbered one after the other from `first` on, `k` of them without an error.
  abbrev Numbered : ℤ → ℕ → Started h → Type 0
  Numbered first k a =
      (m : ℕ) × (ids h a.vus ≡ count_up first m) × (m ≤ k) × (a.error ≡ none → m ≡ k)

  created-Numbered :
      (id : ℤ) (r : Result (StartError Failure) Vm) (w : World)
      → Numbered id 1 (created h id (r, w))
  created-Numbered id (ok vm) w = (1, refl, omega arith, λ fine. refl)
  created-Numbered id (err e) w = (0, refl, omega arith, λ fine. absurd (cc fine))

  new_vu-Numbered :
      (gone : Bool) (prog : Program Code Data) (id : ℤ) (exec : String) (n : ℕ) (w : World)
      → Numbered id 1 (new_vu h gone prog id exec n w)
  new_vu-Numbered true prog id exec n w = (0, refl, omega arith, λ fine. absurd (cc fine))
  new_vu-Numbered false prog id exec n w =
      let r = create_if h (is_prepared prog exec) prog id exec n w in created-Numbered id r.0 r.1

  then_start-Numbered :
      (first : ℤ) (k l : ℕ) (a : Started h) (more : World → Started h)
      → Numbered first k a
      → ((w : World) → Numbered (first +ℤ pos k) l (more w))
      → Numbered first (k + l) (then_start h a more)
  then_start-Numbered first k l a more (m, numbered, few, all) rest = split a.error all
    where
      split :
          (e : Option (StartError Failure))
          → (e ≡ none → m ≡ k)
          → let b = go_on h e more a.world in
            (n : ℕ) × (ids h (a.vus ++ b.vus) ≡ count_up first n)
            × (n ≤ k + l)
            × (b.error ≡ none → n ≡ k + l)
      split (some e) all =
          let same = append-nil a.vus in
          (m, ap (ids h) same ∙ numbered, omega arith, λ fine. absurd (cc fine))
      split none all =
          let (n, later, some_more, all_more) = rest a.world in
          let m_is : m ≡ k = all refl in
          (
            k + n,
            ids-append h a.vus (more a.world).vus
                ∙ rw (numbered, m_is, later) (count_up-append first k n),
            omega arith,
            λ fine. let e = all_more fine in omega arith,
          )

  start_vus-Numbered :
      (prog : Program Code Data) (base : ℤ) (exec : String) (total j k : ℕ) (w : World)
      → Numbered (base +ℤ pos j) k (start_vus h prog base exec total j k w)
  unfolding start_vus
  start_vus-Numbered prog base exec total j zero w = (0, refl, omega arith, λ fine. refl)
  start_vus-Numbered prog base exec total j (suc k) w =
      let one = new_vu h (h.cancelled w) prog (base +ℤ pos j) exec (total + j) w in
      let next : base +ℤ pos (suc j) ≡ base +ℤ pos j +ℤ pos 1 = grind int_laws in
      let e : 1 + k ≡ suc k = omega arith in
      subst (λ n. Numbered (base +ℤ pos j) n (start_vus h prog base exec total j (suc k) w)) e
        (then_start-Numbered (base +ℤ pos j) 1 k one (start_vus h prog base exec total (suc j) k)
          (new_vu-Numbered (h.cancelled w) prog (base +ℤ pos j) exec (total + j) w)
          (λ w'.
            subst (λ x. Numbered x k (start_vus h prog base exec total (suc j) k w')) next
              (start_vus-Numbered prog base exec total (suc j) k w')))

  start_valid-Numbered :
      (e : Option Executor.Error) (prog : Program Code Data) (s : Scenario) (first : ℤ) (total : ℕ)
      (w : World)
      → Numbered first (vu_count h s) (start_valid h e prog s first total w)
  start_valid-Numbered (some e) prog s first total w =
      (0, refl, omega arith, λ fine. absurd (cc fine))
  start_valid-Numbered none prog s first total w =
      subst
        (λ x. Numbered x (vu_count h s) (start_vus h prog first s.exec total 0 (vu_count h s) w))
        (shift_zero first) (start_vus-Numbered prog first s.exec total 0 (vu_count h s) w)

  -- The VUs of all scenarios.
  abbrev pub all_vus : List Scenario → ℕ
  all_vus ss = sum (map (vu_count h) ss)

  start_scenarios-Numbered :
      (prog : Program Code Data) (ss : List Scenario) (first : ℤ) (total : ℕ) (w : World)
      → Numbered first (all_vus ss) (start_scenarios h prog ss first total w)
  unfolding start_scenarios
  start_scenarios-Numbered prog [] first total w = (0, refl, omega arith, λ fine. refl)
  start_scenarios-Numbered prog (s ∷ ss) first total w =
      split (λ first' w'. start_scenarios-Numbered prog ss first' (total + vu_count h s) w')
        (validate (engine_executor s)) refl
    where
      split :
          ((first' : ℤ) (w' : World)
            → Numbered first'
                (all_vus ss)
                (start_scenarios h prog ss first' (total + vu_count h s) w'))
          → (e : Option Executor.Error) → validate (engine_executor s) ≡ e
          → Numbered first (vu_count h s + all_vus ss) (
              then_start h
                (start_valid h e prog s first total w)
                (start_scenarios h prog ss (first +ℤ max_vus s) (total + vu_count h s)))
      split rest (some e) invalid = (0, refl, omega arith, λ fine. absurd (cc fine))
      split rest none valid =
          let some_vu = validate-some_vu (engine_executor s) valid in
          let (same, lengths) = engine_executor-sizes s in
          let size : max_vus s ≡ pos (vu_count h s) =
            sym same ∙ eq_pos (executor_max_vus (engine_executor s)) some_vu in
          then_start-Numbered first (vu_count h s) (all_vus ss)
            (start_valid h none prog s first total w)
            (start_scenarios h prog ss (first +ℤ max_vus s) (total + vu_count h s))
            (start_valid-Numbered none prog s first total w)
            (λ w'.
              subst
                (λ x.
                  Numbered (first +ℤ x) (all_vus ss)
                    (start_scenarios h prog ss (first +ℤ max_vus s) (total + vu_count h s) w'))
                size (rest (first +ℤ max_vus s) w'))

  -- The VUs of a run are numbered from 1 on without a gap, across the scenarios in their order. There
  -- are as many as the executors of the scenarios need together, and the result is the one of the load
  -- phase, which is handed all of them after they have been created; or the start has failed.
  pub run_engine-numbered :
      (prog : Program Code Data) (ss : List Scenario) (w : World)
      → (m : ℕ) × (ids h (run_engine h prog ss w).vus ≡ count_up (pos 1) m)
        × (((m ≡ all_vus ss)
              × ((w' : World) × ((run_engine h prog ss w).result
                    ≡ ok (h.load_phase ss (map (vm_of h) (run_engine h prog ss w).vus) w').0)))
            ⊎ ((e : StartError Failure) × ((run_engine h prog ss w).result ≡ err e)))
  unfolding run_engine start_all
  run_engine-numbered prog [] w = (0, refl, inr (no_scenarios, refl))
  run_engine-numbered prog (s ∷ ss) w =
      let a = start_scenarios h prog (s ∷ ss) (pos 1) 0 w in
      let (m, numbered, few, all) = start_scenarios-Numbered prog (s ∷ ss) (pos 1) 0 w in
      split m numbered a.error all
    where
      split :
          (m : ℕ)
          → ids h (start_scenarios h prog (s ∷ ss) (pos 1) 0 w).vus ≡ count_up (pos 1) m
          → (e : Option (StartError Failure)) → (e ≡ none → m ≡ all_vus (s ∷ ss))
          → let d = load_after h (s ∷ ss) e (start_scenarios h prog (s ∷ ss) (pos 1) 0 w) in
            (m : ℕ) × (ids h d.vus ≡ count_up (pos 1) m)
            × (((m ≡ all_vus (s ∷ ss))
                  × ((w' : World) × (d.result
                        ≡ ok (h.load_phase (s ∷ ss) (map (vm_of h) d.vus) w').0)))
                ⊎ ((e : StartError Failure) × (d.result ≡ err e)))
      split m numbered (some e) all = (m, numbered, inr (e, refl))
      split m numbered none all =
          let a = start_scenarios h prog (s ∷ ss) (pos 1) 0 w in
          (m, numbered, inl (all refl, (a.world, refl)))
