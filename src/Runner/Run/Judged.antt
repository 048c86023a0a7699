-- ===== src/Runner/Run/Judged.antt =====
-- What a run that returns a result has been held against.
use Prim.Native.String.{String}
use text.Mathlib.Text.{◌==◌ as str_eq}
use loadtool.Prelude.{
  ◌≡◌, ◌↔◌, inl, inr, refl, sym, ap, subst, ◌∙◌, List, [], ◌∷◌, map, Option, true, false, not,
  arith, Bytes, All, Bool-cases,
}
use loadtool.Prelude.Int.{ℤ}
use loadtool.Prelude.Float.{Float}
use loadtool.Prelude.Result.{Result, ok, err, ok_inj}
use loadtool.Config.Run.{Config}
use loadtool.Config.Run as Config
use loadtool.Config.Run.Chosen.{resolve}
use loadtool.Report.{RunResult, verdict}
use loadtool.Report.Verdict.{all_passed, verdict-exact}
use loadtool.Thresholds.{Kind, Metric, Threshold, evaluate, failed}
use loadtool.Thresholds.Parse.{parse}
use loadtool.Thresholds.Parse.Exact.{ReadsAll, parse_iff}
use loadtool.Thresholds.Evaluated.{Holds, reported, all_passed-reported, failed-evaluate}
use loadtool.Script.{Program, loaded, with_setup_data}
use loadtool.Runner.Action.{Action, value, ◌>>>◌, deferring, continue}
use loadtool.Runner.Run.{
  Host, Call, ScriptOptions, Load, StartError, failing, script_failed, bad_thresholds,
}
use loadtool.Runner.Run.Start.{Engined, run_engine, close_vus}
use loadtool.Runner.Run.Lifecycle.{
  Params, TestResult, Plan, resolved, configure, error_text, outcome, run_load, with_modules, run,
}

module _ {W E C : Type 0} where
  -- An action that goes on after another succeeds only if both do.
  >>>-eq-ok :
      {A B : Type 0} (m : Action W E C A) (k : A → Action W E C B) (w : W) (b : B)
      → ((m >>> k) w).result ≡ ok b
      → (a : A) × (w' : W) × ((m w).result ≡ ok a) × ((k a w').result ≡ ok b)
  unfolding ◌>>>◌
  >>>-eq-ok {A} {B} m k w b h = split (m w).result refl h
    where
      split :
          (r : Result E A)
          → (m w).result ≡ r
          → (continue r k (m w).world).result ≡ ok b
          → (a : A) × (w' : W) × ((m w).result ≡ ok a) × ((k a w').result ≡ ok b)
      split (err e) at_r h = absurd (cc h)
      split (ok a) at_r h = (a, (m w).world, at_r, h)

  deferring-result :
      {A : Type 0} (last : W → W) (c : C) (m : Action W E C A) (w : W)
      → (deferring last c m w).result ≡ (m w).result
  unfolding deferring
  deferring-result last c m w = refl

value-eq-ok :
    {W E A : Type 0} (C : Type 0) (r : Result E A) (w : W) (d : Result E A)
    → (value {W = W} {C = C} r w).result ≡ d
    → r ≡ d
unfolding value
value-eq-ok C r w d h = h

failing-eq-ok :
    {F E A : Type 0} (f : F → E) (r : Result F A) (a : A) → failing f r ≡ ok a → r ≡ ok a
failing-eq-ok f (ok b) a h = let e = ok_inj h in rw e refl
failing-eq-ok f (err e) a h = absurd (cc h)

module _ (h : Host) (fl : Float) (seconds : ℤ → fl.F) (parse_float : Bytes → fl.F) where
  open h use {World, Code, Vm, Data, Failure, Raw}

  -- What the plan of a run has been made from.
  abbrev Planned :
      Params h fl seconds parse_float
      → List (String × Kind)
      → Plan h fl seconds parse_float
      → Type 0
  Planned p families plan =
      (raw : Raw) × (opts : ScriptOptions) × (h.parse_options raw ≡ ok opts)
      × (resolve p.lib p.config p.overrides p.getenv opts.options ≡ (plan.config, []))
      × ReadsAll fl seconds parse_float families opts.thresholds plan.thresholds

  resolved-eq-ok :
      (r : Config × List Config.Error) (c : Config)
      → resolved h fl seconds parse_float r ≡ ok c
      → r ≡ (c, [])
  resolved-eq-ok (d, []) c e = let same = ok_inj e in rw same refl
  resolved-eq-ok (d, x ∷ es) c e = absurd (cc e)

  configure-Planned :
      (p : Params h fl seconds parse_float) (families : List (String × Kind))
      (prog : Program Code Data) (lc : Vm) (w : World) (plan : Plan h fl seconds parse_float)
      → (configure h fl seconds parse_float p families prog lc w).result ≡ ok plan
      → Planned p families plan
  unfolding configure
  configure-Planned p families prog lc w plan done =
      let (raw, w₁, read, d₁) = >>>-eq-ok _ _ w plan done in
      let (opts, w₂, parsed, d₂) = >>>-eq-ok _ _ w₁ plan d₁ in
      let (told, w₃, said, d₃) = >>>-eq-ok _ _ w₂ plan d₂ in
      let (c, w₄, settled, d₄) = >>>-eq-ok _ _ w₃ plan d₃ in
      let (fine, w₅, valid, d₅) = >>>-eq-ok _ _ w₄ plan d₄ in
      let (ths, w₆, read_all, d₆) = >>>-eq-ok _ _ w₅ plan d₅ in
      let (prog', w₇, prepared, d₇) = >>>-eq-ok _ _ w₆ plan d₆ in
      let (told', w₈, said', d₈) = >>>-eq-ok _ _ w₇ plan d₇ in
      let made = ok_inj (value-eq-ok Call _ w₈ (ok plan) d₈) in
      let settled' =
        resolved-eq-ok (resolve p.lib p.config p.overrides p.getenv opts.options) c
          (value-eq-ok Call _ w₃ (ok c) settled) in
      let parsed' =
        failing-eq-ok script_failed (h.parse_options raw) opts
          (value-eq-ok Call _ w₁ (ok opts) parsed) in
      let read' =
        failing-eq-ok bad_thresholds (parse fl seconds parse_float families opts.thresholds) ths
          (value-eq-ok Call _ w₅ (ok ths) read_all) in
      subst (Planned p families) made (
        raw,
        opts,
        parsed',
        settled',
        (parse_iff fl seconds parse_float families opts.thresholds ths).0 read',
      )

  -- What the fields of a result report of the engine's end and of the teardown after it.
  abbrev pub Reports :
      Params h fl seconds parse_float
      → TestResult h fl seconds parse_float
      → Vm
      → Option Data
      → Engined h
      → Type 0
  Reports p r lc d e =
      (load : Load) × (e.result ≡ ok load)
      × (r.elapsed ≡ load.elapsed)
      × (r.measured
          ≡ record load.measured { families = h.families (close_vus h p.warn e.vus e.world) })
      × (r.interrupted ≡ h.cancelled e.world)
      × (r.teardown_error
          ≡ error_text h fl seconds parse_float
              (h.teardown lc (h.cancelled (close_vus h p.warn e.vus e.world))
                r.config.teardown_timeout d (close_vus h p.warn e.vus e.world)).0)

  -- The result of a run, with what the plan says.
  abbrev Follows :
      Params h fl seconds parse_float
      → Plan h fl seconds parse_float
      → TestResult h fl seconds parse_float
      → Type 0
  Follows p plan r =
      (r.config ≡ plan.config)
      × (r.thresholds ≡ evaluate fl seconds plan.thresholds r.measured r.elapsed)
      × ((lc : Vm) × (d : Option Data) × (prog : Program Code Data) × (w : World) × Reports p r lc d
            (run_engine h prog r.config.scenarios w))

  run_load-Follows :
      (p : Params h fl seconds parse_float) (lc : Vm) (plan : Plan h fl seconds parse_float)
      (d : Option Data) (w : World) (r : TestResult h fl seconds parse_float)
      → (run_load h fl seconds parse_float p lc plan d w).result ≡ ok r
      → Follows p plan r
  unfolding run_load
  run_load-Follows p lc plan d w r done = split engined.result refl done
    where
      prog : Program Code Data
      prog = with_setup_data d plan.program

      engined : Engined h
      engined = run_engine h prog plan.config.scenarios w

      closed : World
      closed = close_vus h p.warn engined.vus engined.world

      split :
          (e : Result (StartError Failure) Load)
          → engined.result ≡ e
          → outcome h fl seconds parse_float plan e
              (h.cancelled engined.world)
              closed
              (h.teardown lc (h.cancelled closed) plan.config.teardown_timeout d closed).0
            ≡ ok r
          → Follows p plan r
      split (err e) at_e done = absurd (cc done)
      split (ok load) at_e done =
          subst (Follows p plan) (ok_inj done)
            (refl, refl, (lc, d, prog, w, (load, at_e, refl, refl, refl, refl)))

  with_modules-Planned :
      (p : Params h fl seconds parse_float) (code : Code) (families : List (String × Kind))
      (w : World) (r : TestResult h fl seconds parse_float)
      → (with_modules h fl seconds parse_float p code families w).result ≡ ok r
      → (plan : Plan h fl seconds parse_float) × Planned p families plan × Follows p plan r
  with_modules-Planned p code families w r done =
      let (lc, w₁, started, d₁) = >>>-eq-ok _ _ w r done in
      let (plan, w₂, configured, d₂) = >>>-eq-ok _ _ w₁ r d₁ in
      let d₃ = sym (deferring-result _ _ _ w₂) ∙ d₂ in
      let d₄ = sym (deferring-result _ _ _ w₂) ∙ d₃ in
      let (setup_data, w₃, set_up, d₅) = >>>-eq-ok _ _ w₂ r d₄ in
      (
        plan,
        configure-Planned p families (loaded code) lc w₁ plan configured,
        run_load-Follows p lc plan setup_data w₃ r d₅,
      )

  run-Planned :
      (p : Params h fl seconds parse_float) (w : World) (r : TestResult h fl seconds parse_float)
      → (run h fl seconds parse_float p w).result ≡ ok r
      → (families : List (String × Kind)) × (plan : Plan h fl seconds parse_float) × Planned p
          families plan
        × Follows p plan r
  unfolding run
  run-Planned p w r done = elim (Bool-cases (str_eq p.config.script "")) [
    | inl none_given ↦
        let e = rw none_given at done in let bad = value-eq-ok Call _ w (ok r) e in absurd (cc bad)
    | inr given ↦
        let e = rw given at done in
        let (code, w₁, loaded_it, d₁) = >>>-eq-ok _ _ w r e in
        let (families, w₂, started, d₂) = >>>-eq-ok _ _ w₁ r d₁ in
        let d₃ = sym (deferring-result _ _ _ w₂) ∙ d₂ in
        let (plan, planned, follows) = with_modules-Planned p code families w₂ r d₃ in
        (families, plan, planned, follows)
  ]

  -- The fields that Verdict reads.
  abbrev pub judged_result : (Metric → String) → TestResult h fl seconds parse_float → RunResult
  judged_result name r = record {
    interrupted = r.interrupted;
    teardown_error = r.teardown_error;
    thresholds = map (reported fl seconds name) r.thresholds;
  }

  passes_iff :
      (name : Metric → String) (r : TestResult h fl seconds parse_float)
      (ths : List (Threshold fl seconds))
      → r.thresholds ≡ evaluate fl seconds ths r.measured r.elapsed
      → ((verdict (judged_result name r)).passed ≡ true) ↔ (
          (r.interrupted ≡ false)
          × (str_eq r.teardown_error "" ≡ true)
          × All (Holds fl seconds r.measured r.elapsed) ths)
  passes_iff name r ths e =
      let iff = failed-evaluate fl seconds ths r.measured r.elapsed in
      let x = verdict-exact (judged_result name r) in
      let all : all_passed (map (reported fl seconds name) r.thresholds)
          ≡ not (failed fl seconds (evaluate fl seconds ths r.measured r.elapsed)) =
        all_passed-reported fl seconds name r.thresholds
        ∙ ap (λ rs. not (failed fl seconds rs)) e in
      (
        λ passed.
            (ground (arith, x.2, all), ground (arith, x.2, all), iff.0 (ground (arith, x.2, all))),
        λ (a, b, c). let f = iff.1 c in ground (arith, x.2, all),
      )

  -- A run that returns a result has read the script's options, and its configuration is the one that
  -- Resolve makes of them without an error. The engine has run the configuration's scenarios up to a
  -- load phase with a result: the elapsed time and the metrics are the ones of that phase, with the
  -- families as they are once the VUs are closed, the run is marked interrupted exactly if its context
  -- had ended when the engine returned, and the teardown's error is the text of what the teardown
  -- after it returned. The verdict is that the run passed exactly if it is not marked interrupted, the
  -- text of the teardown's error is empty, and each threshold that the script's expressions spell has
  -- data in these metrics and meets its limit.
  pub run-judged :
      (p : Params h fl seconds parse_float) (w : World) (r : TestResult h fl seconds parse_float)
      (name : Metric → String)
      → (run h fl seconds parse_float p w).result ≡ ok r
      → (families : List (String × Kind)) × (raw : Raw) × (opts : ScriptOptions) × (ths : List
          (Threshold fl seconds))
        × (h.parse_options raw ≡ ok opts)
        × (resolve p.lib p.config p.overrides p.getenv opts.options ≡ (r.config, []))
        × ((lc : Vm) × (d : Option Data) × (prog : Program Code Data) × (w' : World) × Reports p r
              lc d
              (run_engine h prog r.config.scenarios w'))
        × ReadsAll fl seconds parse_float families opts.thresholds ths
        × (((verdict (judged_result name r)).passed ≡ true) ↔ (
            (r.interrupted ≡ false)
            × (str_eq r.teardown_error "" ≡ true)
            × All (Holds fl seconds r.measured r.elapsed) ths))
  run-judged p w r name done =
      let (families, plan, (raw, opts, parsed, settled, reads), (config_is, evaluated, ran)) =
        run-Planned p w r done in
      let settled' : resolve p.lib p.config p.overrides p.getenv opts.options ≡ (r.config, []) =
        settled ∙ ap (λ c. (c, [])) (sym config_is) in
      (
        families,
        raw,
        opts,
        plan.thresholds,
        parsed,
        settled',
        ran,
        reads,
        passes_iff name r plan.thresholds evaluated,
      )
