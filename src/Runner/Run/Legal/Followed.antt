-- ===== src/Runner/Run/Legal/Followed.antt =====
-- The calls of a whole run.
use Prim.Native.String.{String}
use text.Mathlib.Text.{◌==◌ as str_eq}
use loadtool.Prelude.{
  ◌≡◌, ◌⊎◌, inl, inr, refl, sym, ap, subst, ◌∙◌, List, [], ◌∷◌, ◌++◌, map, Option, some, Bool, true,
  false, Bytes, Bool-cases,
}
use loadtool.Prelude.Int.{ℤ}
use loadtool.Prelude.Float.{Float}
use loadtool.Thresholds.{Kind}
use loadtool.Script.{Program, loaded, with_setup_data}
use loadtool.Runner.Action.{perform, value, ◌>>>◌, deferring}
use loadtool.Runner.Run.{
  Host, load_script, start_modules, lifecycle_init, read_options, prepare_execs, setup, teardown,
  close_lifecycle, close_idle, close_modules, Stop, is_ok, failing_call, script_failed, Warning,
}
use loadtool.Runner.Run.Start.{run_engine, close_call, warned}
use loadtool.Runner.Run.Lifecycle.{
  Params, TestResult, Act, Plan, configure, run_load, with_setup, with_modules, with_script, run,
}
use loadtool.Runner.Run.Legal.{
  Phase, fresh, scripted, opened, ready, prepared, ending, torn_down, lifecycle_closed, over, alive,
  next, follow, follow-append,
}
use loadtool.Runner.Run.Legal.Rules.{
  Closable, To, Leads, effect-Leads, perform-Leads, >>>-Leads, deferring-Leads, call-Leads,
  ready-Leads, done-Leads, then-Leads, weaken-Leads,
}
use loadtool.Runner.Run.Legal.Started.{run_engine-Open, close_calls-Open, torn_down-follow}

module _ (h : Host) (fl : Float) (seconds : ℤ → fl.F) (parse_float : Bytes → fl.F) where
  open h use {World, Code, Vm, Data, Failure}

  configure-Leads :
      (p : Params h fl seconds parse_float) (families : List (String × Kind))
      (prog : Program Code Data) (lc : Vm)
      → Leads ready (configure h fl seconds parse_float p families prog lc) (To prepared)
  unfolding configure
  configure-Leads p families prog lc =
      then-Leads ready ready prepared _ _
        (call-Leads ready ready ending read_options _ refl refl refl)
        (λ raw. then-Leads ready ready prepared _ _ (ready-Leads _) (λ opts.
          then-Leads ready ready prepared _ _ (effect-Leads (Stop Failure) ready _ (To ready) refl)
            (λ told. then-Leads ready ready prepared _ _ (ready-Leads _) (λ c.
              then-Leads ready ready prepared _ _ (ready-Leads _) (λ fine.
                then-Leads ready ready prepared _ _ (ready-Leads _) (λ ths.
                  then-Leads ready prepared prepared _ _
                    (call-Leads ready prepared ending prepare_execs _ refl refl refl)
                    (λ prog'.
                      then-Leads prepared prepared prepared _ _
                        (effect-Leads (Stop Failure) prepared _ (To prepared) refl)
                        (λ told'. done-Leads prepared _))))))))

  run_load-Leads :
      (p : Params h fl seconds parse_float) (lc : Vm) (plan : Plan h fl seconds parse_float)
      (data_ : Option Data)
      → Leads (alive []) (run_load h fl seconds parse_float p lc plan data_) (λ b q. q ≡ torn_down)
  unfolding run_load
  run_load-Leads p lc plan data_ = record { leads = torn }
    where
      torn :
          (w : World)
          → (q : Phase) × (follow
                (alive [])
                (run_load h fl seconds parse_float p lc plan data_ w).calls
              ≡ some q)
            × (q ≡ torn_down)
      torn w =
          let e = run_engine h (with_setup_data data_ plan.program) plan.config.scenarios w in
          let (q, at_q, open_at) =
            run_engine-Open h (with_setup_data data_ plan.program) plan.config.scenarios w in
          let (q', at_q', closed) = close_calls-Open h e.vus q open_at in
          let closes = map (close_call h) e.vus in
          (
            torn_down,
            follow-append (alive []) q e.calls (closes ++ (teardown _ ∷ [])) at_q
                ∙ follow-append q q' closes (teardown _ ∷ []) at_q'
                ∙ torn_down-follow h q' _ closed,
            refl,
          )

  with_setup-Leads :
      (p : Params h fl seconds parse_float) (lc : Vm) (plan : Plan h fl seconds parse_float)
      → Leads prepared (with_setup h fl seconds parse_float p lc plan) (λ b q. q ≡ ending)
  with_setup-Leads p lc plan =
      deferring-Leads prepared _ close_idle _ (λ b q. q ≡ lifecycle_closed) (λ b q. q ≡ ending)
        (deferring-Leads prepared _ close_lifecycle _ (λ b q. q ≡ torn_down)
          (λ b q. q ≡ lifecycle_closed)
          (>>>-Leads prepared _ _ after_setup (λ b q. q ≡ torn_down)
            (perform-Leads prepared setup _ after_setup (λ b.
              elim b as (λ b. (q : Phase) × (next prepared (setup b) ≡ some q) × after_setup b q) [
                | true ↦ (alive [], refl, refl)
                | false ↦ (torn_down, refl, refl)
              ]))
            (λ data_ q e.
              subst
                (λ q.
                  Leads q (run_load h fl seconds parse_float p lc plan data_)
                    (λ b q. q ≡ torn_down))
                (sym e) (run_load-Leads p lc plan data_))
            (λ q e. e))
          (λ b q e. (lifecycle_closed, rw e refl, refl)))
        (λ b q e. (ending, rw e refl, refl))
    where
      after_setup : Bool → Phase → Type 0
      after_setup true q = q ≡ alive []
      after_setup false q = q ≡ torn_down

  with_modules-Leads :
      (p : Params h fl seconds parse_float) (code : Code) (families : List (String × Kind))
      → Leads opened (with_modules h fl seconds parse_float p code families) (λ b q. Closable q)
  with_modules-Leads p code families =
      >>>-Leads opened _ _ (To ready) (λ b q. Closable q)
        (call-Leads opened ready ending lifecycle_init _ refl refl refl)
        (λ lc q e.
          subst
            (λ q.
              Leads q
                (configure h fl seconds parse_float p families (loaded code) lc
                  >>> with_setup h fl seconds parse_float p lc)
                (λ b q. Closable q))
            (sym e)
            (>>>-Leads ready _ _ (To prepared) (λ b q. Closable q)
              (configure-Leads p families (loaded code) lc)
              (λ plan q e.
                subst
                  (λ q. Leads q (with_setup h fl seconds parse_float p lc plan) (λ b q. Closable q))
                  (sym e)
                  (weaken-Leads prepared _ _ _ (with_setup-Leads p lc plan) (λ b q e. rw e refl)))
              (λ q closes. closes)))
        (λ q closes. closes)

  with_script-Leads :
      (p : Params h fl seconds parse_float) (code : Code)
      → Leads scripted (with_script h fl seconds parse_float p code) (λ b q. q ≡ over)
  with_script-Leads p code =
      >>>-Leads scripted _ _ after_start (λ b q. q ≡ over)
        (perform-Leads scripted start_modules _ after_start (λ b.
          elim b
            as (λ b. (q : Phase) × (next scripted (start_modules b) ≡ some q) × after_start b q) [
              | true ↦ (opened, refl, refl)
              | false ↦ (over, refl, refl)
            ]))
        (λ families q e.
          subst (λ q. Leads q (closing families) (λ b q. q ≡ over)) (sym e)
            (deferring-Leads opened _ close_modules _ (λ b q. Closable q) (λ b q. q ≡ over)
              (with_modules-Leads p code families) (λ b q closes. (over, closes, refl))))
        (λ q e. e)
    where
      after_start : Bool → Phase → Type 0
      after_start true q = q ≡ opened
      after_start false q = q ≡ over

      closing :
          List (String × Kind) → Act h fl seconds parse_float (TestResult h fl seconds parse_float)
      closing families =
          deferring (λ w. warned h p.warn Warning.not_closed_modules (h.close_modules w))
            close_modules (with_modules h fl seconds parse_float p code families)

  run-Leads :
      (p : Params h fl seconds parse_float)
      → Leads fresh
          (perform
              (λ r. load_script (is_ok r))
              (failing_call script_failed (h.load p.config.script))
            >>> with_script h fl seconds parse_float p)
          (λ b q. q ≡ over)
  run-Leads p =
      >>>-Leads fresh _ _ after_load (λ b q. q ≡ over)
        (perform-Leads fresh load_script _ after_load (λ b.
          elim b as (λ b. (q : Phase) × (next fresh (load_script b) ≡ some q) × after_load b q) [
            | true ↦ (scripted, refl, refl)
            | false ↦ (over, refl, refl)
          ]))
        (λ code q e.
          subst (λ q. Leads q (with_script h fl seconds parse_float p code) (λ b q. q ≡ over))
            (sym e) (with_script-Leads p code))
        (λ q e. e)
    where
      after_load : Bool → Phase → Type 0
      after_load true q = q ≡ scripted
      after_load false q = q ≡ over

  -- The calls of every run are in an order that the automaton allows, and lead to its end: setup runs
  -- after the settings are checked, VUs are created only after a setup that succeeded, and no more
  -- after one that failed; the load phase runs at most once, with every VU that was created, and not
  -- after one that failed; then each of them is closed once, in the order of creation; teardown
  -- follows exactly when setup has succeeded; the lifecycle runtime, the idle connections and the
  -- modules close last, in this order. Or there is no script, and no call.
  pub run-Legal :
      (p : Params h fl seconds parse_float) (w : World)
      → (follow fresh (run h fl seconds parse_float p w).calls ≡ some over)
        ⊎ ((str_eq p.config.script "" ≡ true) × ((run h fl seconds parse_float p w).calls ≡ []))
  unfolding run value
  run-Legal p w = elim (Bool-cases (str_eq p.config.script "")) [
    | inl none_given ↦ inr (none_given, rw none_given refl)
    | inr given ↦ let (q, at_q, e) = (run-Leads p).leads w in inl (rw given (at_q ∙ ap some e))
  ]
