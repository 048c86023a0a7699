-- ===== src/Runner/Run/Legal/Started.antt =====
-- The calls that create and close the VUs.
use Prim.Native.String.{String}
use mathlib.Core.List.{append_assoc, append-nil}
use loadtool.Prelude.{
  ◌≡◌, ◌⊎◌, inl, inr, refl, sym, ap, subst, ◌∙◌, ℕ, zero, suc, ◌+◌, List, [], ◌∷◌, ◌++◌, map,
  length, length-map, Option, none, some, Bool, true, false, ◌==◌, ==_iff, arith,
}
use loadtool.Prelude.Int.{ℤ, pos, ◌+ℤ◌}
use loadtool.Prelude.Result.{Result, ok, err}
use loadtool.Config.Scenario.{Scenario, max_vus}
use loadtool.Engine.Executor.{validate}
use loadtool.Engine.Executor as Executor
use loadtool.Script.{Program, is_prepared}
use loadtool.Runner.{engine_executor}
use loadtool.Runner.Run.{Host, Call, StartError, teardown}
use loadtool.Runner.Run.Start.{
  Vu, Started, stopped, go_on, then_start, create_if, created, new_vu, start_vus, vu_count,
  start_valid, start_scenarios, start_all, load_after, run_engine, close_call,
}
use loadtool.Runner.Run.Legal.{Phase, alive, ended, torn_down, follow, follow-append, same_id}

module _ (h : Host) where
  open h use {World, Code, Vm, Data, Failure}

  abbrev pub ids : List (Vu h) → List ℤ
  ids = map (λ (v : Vu h). v.0)

  pub ids-append : (a b : List (Vu h)) → ids (a ++ b) ≡ ids a ++ ids b
  ids-append [] b = refl
  ids-append (v ∷ a) b = ap (λ x. v.0 ∷ x) (ids-append a b)

  -- Certain VUs are open.
  abbrev pub Open : List ℤ → Phase → Type 0
  Open vs p = (p ≡ alive vs) ⊎ (p ≡ ended vs)

  -- The creation has opened certain VUs beside those before it; more can follow unless it has failed.
  abbrev pub Opens : List ℤ → Started h → Type 0
  Opens vs a =
      (p : Phase) × (follow (alive vs) a.calls ≡ some p)
      × Open (vs ++ ids a.vus) p
      × (a.error ≡ none → p ≡ alive (vs ++ ids a.vus))

  stopped-Opens :
      (vs : List ℤ) (e : Option (StartError Failure)) (w : World) → Opens vs (stopped h e w)
  stopped-Opens vs e w =
      let same = sym (append-nil vs) in (alive vs, refl, inl (ap alive same), λ fine. ap alive same)

  created-Opens :
      (vs : List ℤ) (id : ℤ) (r : Result (StartError Failure) Vm) (w : World)
      → Opens vs (created h id (r, w))
  created-Opens vs id (ok vm) w = (alive (vs ++ (id ∷ [])), refl, inl refl, λ fine. refl)
  created-Opens vs id (err e) w =
      let same = sym (append-nil vs) in
      (ended vs, refl, inr (ap ended same), λ fine. absurd (cc fine))

  then_start-Opens :
      (vs : List ℤ) (a : Started h) (more : World → Started h)
      → Opens vs a
      → ((w : World) → Opens (vs ++ ids a.vus) (more w))
      → Opens vs (then_start h a more)
  then_start-Opens vs a more (p, at_p, opened, fine) rest =
      joined (go_on h a.error more a.world) p at_p (after a.error fine)
    where
      after :
          (e : Option (StartError Failure))
          → (e ≡ none → p ≡ alive (vs ++ ids a.vus))
          → (q : Phase) × (follow p (go_on h e more a.world).calls ≡ some q)
            × Open ((vs ++ ids a.vus) ++ ids (go_on h e more a.world).vus) q
            × ((go_on h e more a.world).error ≡ none
                → q ≡ alive ((vs ++ ids a.vus) ++ ids (go_on h e more a.world).vus))
      after (some e) fine =
          let same = append-nil (vs ++ ids a.vus) in
          (p, refl, subst (λ x. Open x p) (sym same) opened, λ failed. absurd (cc failed))
      after none fine =
          subst
            (λ p.
              (q : Phase) × (follow p (more a.world).calls ≡ some q)
              × Open ((vs ++ ids a.vus) ++ ids (more a.world).vus) q
              × ((more a.world).error ≡ none
                  → q ≡ alive ((vs ++ ids a.vus) ++ ids (more a.world).vus)))
            (sym (fine refl)) (rest a.world)

      joined :
          (b : Started h) (p : Phase)
          → follow (alive vs) a.calls ≡ some p
          → (q : Phase) × (follow p b.calls ≡ some q)
            × Open ((vs ++ ids a.vus) ++ ids b.vus) q
            × (b.error ≡ none → q ≡ alive ((vs ++ ids a.vus) ++ ids b.vus))
          → Opens vs (record {
            vus = a.vus ++ b.vus;
            error = b.error;
            world = b.world;
            calls = a.calls ++ b.calls;
          })
      joined b p at_p (q, at_q, opened, fine) =
          let same : (vs ++ ids a.vus) ++ ids b.vus ≡ vs ++ ids (a.vus ++ b.vus) =
            append_assoc vs (ids a.vus) (ids b.vus)
            ∙ ap (λ x. vs ++ x) (sym (ids-append a.vus b.vus)) in
          (
            q,
            follow-append (alive vs) p a.calls b.calls at_p ∙ at_q,
            subst (λ x. Open x q) same opened,
            λ e. fine e ∙ ap alive same,
          )

  new_vu-Opens :
      (vs : List ℤ) (gone : Bool) (prog : Program Code Data) (id : ℤ) (exec : String) (n : ℕ)
      (w : World)
      → Opens vs (new_vu h gone prog id exec n w)
  new_vu-Opens vs true prog id exec n w = stopped-Opens vs (some StartError.context_ended) w
  new_vu-Opens vs false prog id exec n w =
      let r = create_if h (is_prepared prog exec) prog id exec n w in created-Opens vs id r.0 r.1

  start_vus-Opens :
      (vs : List ℤ) (prog : Program Code Data) (base : ℤ) (exec : String) (total j k : ℕ)
      (w : World)
      → Opens vs (start_vus h prog base exec total j k w)
  unfolding start_vus
  start_vus-Opens vs prog base exec total j zero w = stopped-Opens vs none w
  start_vus-Opens vs prog base exec total j (suc k) w =
      let one = new_vu h (h.cancelled w) prog (base +ℤ pos j) exec (total + j) w in
      then_start-Opens vs one (start_vus h prog base exec total (suc j) k)
        (new_vu-Opens vs (h.cancelled w) prog (base +ℤ pos j) exec (total + j) w)
        (start_vus-Opens (vs ++ ids one.vus) prog base exec total (suc j) k)

  start_valid-Opens :
      (vs : List ℤ) (e : Option Executor.Error) (prog : Program Code Data) (s : Scenario)
      (first : ℤ) (total : ℕ) (w : World)
      → Opens vs (start_valid h e prog s first total w)
  start_valid-Opens vs (some e) prog s first total w =
      stopped-Opens vs (some (StartError.bad_scenario s.name e)) w
  start_valid-Opens vs none prog s first total w =
      start_vus-Opens vs prog first s.exec total 0 (vu_count h s) w

  start_scenarios-Opens :
      (vs : List ℤ) (prog : Program Code Data) (ss : List Scenario) (first : ℤ) (total : ℕ)
      (w : World)
      → Opens vs (start_scenarios h prog ss first total w)
  unfolding start_scenarios
  start_scenarios-Opens vs prog [] first total w = stopped-Opens vs none w
  start_scenarios-Opens vs prog (s ∷ ss) first total w =
      let one = start_valid h (validate (engine_executor s)) prog s first total w in
      then_start-Opens vs one
        (start_scenarios h prog ss (first +ℤ max_vus s) (total + vu_count h s))
        (start_valid-Opens vs (validate (engine_executor s)) prog s first total w)
        (start_scenarios-Opens (vs ++ ids one.vus) prog ss (first +ℤ max_vus s)
          (total + vu_count h s))

  start_all-Opens :
      (prog : Program Code Data) (ss : List Scenario) (w : World) → Opens [] (start_all h prog ss w)
  unfolding start_all
  start_all-Opens prog [] w = stopped-Opens [] (some StartError.no_scenarios) w
  start_all-Opens prog (s ∷ ss) w = start_scenarios-Opens [] prog (s ∷ ss) (pos 1) 0 w

  -- After the load phase, or the failed creation, exactly the VUs of the result are open.
  pub run_engine-Open :
      (prog : Program Code Data) (ss : List Scenario) (w : World)
      → (p : Phase) × (follow (alive []) (run_engine h prog ss w).calls ≡ some p)
        × Open (ids (run_engine h prog ss w).vus) p
  unfolding run_engine
  run_engine-Open prog ss w =
      let a = start_all h prog ss w in after a.error (start_all-Opens prog ss w).3
    where
      after :
          (e : Option (StartError Failure))
          → (e ≡ none → (start_all-Opens prog ss w).0 ≡ alive (ids (start_all h prog ss w).vus))
          → (p : Phase) × (follow (alive []) (load_after h ss e (start_all h prog ss w)).calls
              ≡ some p)
            × Open (ids (load_after h ss e (start_all h prog ss w)).vus) p
      after (some e) fine =
          let (p, at_p, opened, f) = start_all-Opens prog ss w in (p, at_p, opened)
      after none fine =
          let a = start_all h prog ss w in
          let (p, at_p, opened, f) = start_all-Opens prog ss w in
          let at_alive : follow (alive []) a.calls ≡ some (alive (ids a.vus)) =
            at_p ∙ ap some (fine refl) in
          let sized : (length a.vus == length (ids a.vus)) ≡ true =
            (==_iff (length a.vus) (length (ids a.vus))).1
              (sym (length-map a.vus (λ (v : Vu h). v.0))) in
          (
            ended (ids a.vus),
            follow-append (alive []) (alive (ids a.vus)) a.calls
                  (Call.load_phase (length a.vus) ∷ []) at_alive
                ∙ rw sized refl,
            inr refl,
          )

  same_id_self : (a : ℤ) → same_id a a ≡ true
  same_id_self a = ground arith

  pub close_calls-Open :
      (vs : List (Vu h)) (p : Phase)
      → Open (ids vs) p
      → (q : Phase) × (follow p (map (close_call h) vs) ≡ some q) × Open [] q
  close_calls-Open [] p opened = (p, refl, opened)
  close_calls-Open (v ∷ vs) p opened =
      let (q, at_q, none_open) = close_calls-Open vs (ended (ids vs)) (inr refl) in
      (q, first p opened ∙ at_q, none_open)
    where
      self : same_id v.0 v.0 ≡ true
      self = same_id_self v.0

      first :
          (p : Phase)
          → Open (v.0 ∷ ids vs) p
          → follow p (close_call h v ∷ map (close_call h) vs)
            ≡ follow (ended (ids vs)) (map (close_call h) vs)
      first p (inl e) = rw (e, self) refl
      first p (inr e) = rw (e, self) refl

  -- Teardown follows once no VU is open.
  pub torn_down-follow :
      (p : Phase) (clean : Bool) → Open [] p → follow p (teardown clean ∷ []) ≡ some torn_down
  torn_down-follow p clean (inl e) = rw e refl
  torn_down-follow p clean (inr e) = rw e refl
