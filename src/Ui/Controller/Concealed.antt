-- ===== src/Ui/Controller/Concealed.antt =====
-- The secrets of a form and what its run stores.
use loadtool.Prelude.{
  ℕ, ◌≤◌, ◌==◌, [], ◌∷◌, Option, none, some, true, false, Bytes, ◌≡◌, refl, subst, All, All-snoc,
  arith, Bool-cases, inl, inr, length, ltb,
}
use loadtool.Prelude.Result.{ok}
use loadtool.Ui.Config.{Std, Limits, Plan, RunConfig}
use loadtool.Ui.Config.Build.{validate}
use loadtool.Ui.Config.Passed.{validate-eq-ok}
use loadtool.Ui.Config.Secret.{Hidden, validate_request-Free}
use loadtool.Ui.Redact.{Redactor, redact, new_redactor, min_secret}
use loadtool.Ui.Redact.Masked.{Free}
use loadtool.Ui.Controller.{
  Controller, Run, Point, Outcome, failure, success, is_running, new_run, finish, add_point, warn,
  cancel_run, start, max_warnings, redact_some,
}
use loadtool.Ui.Controller.Schedule.{Steps, start-eq-ok}
use loadtool.Ui.Controller.Followed.{At, Steps-At, get_elem?_snoc}

-- A text that holds none of the form's secrets, if they are at least three bytes long and have no '*'.
module _ (std : Std) where
  abbrev pub Secretless : RunConfig std.float → Bytes → Type 0
  Secretless c text =
      (w : Bytes)
      → Hidden c.request w
      → min_secret ≤ length w
      → All (λ b. (b == b'*') ≡ false) w
      → Free w text

  abbrev pub SomeSecretless : RunConfig std.float → Option Bytes → Type 0
  SomeSecretless c none = Unit
  SomeSecretless c (some text) = Secretless c text

  -- The redactor of the form's run: what it puts out holds none of them.
  abbrev pub Guards : RunConfig std.float → Redactor → Type 0
  Guards c red = (text : Bytes) → Secretless c (redact red text)

  -- Neither the error of a run, nor a warning, nor a report holds a secret of the form.
  abbrev pub Concealed : RunConfig std.float → Run → Type 0
  Concealed c r =
      Guards c r.redactor
      × Secretless c r.err_msg
      × All (Secretless c) r.warnings
      × SomeSecretless c r.report_json
      × SomeSecretless c r.report_html

  empty-Secretless : (c : RunConfig std.float) → Secretless c []
  empty-Secretless c [] hidden long clean = absurd (omega arith)
  empty-Secretless c (b ∷ w) hidden long clean = refl

  fresh :
      (id now : ℕ) (c : RunConfig std.float) (lim : Limits) (p : Plan)
      → validate std c lim ≡ ok p
      → Concealed c (new_run id now p)
  unfolding new_run
  fresh id now c lim p h =
      let (req, d, made, allowed, vus, lasts, range, same) = validate-eq-ok std c lim p h in
      (
        subst (λ x. Guards c (new_redactor x.request.secrets)) same
            (λ text w. validate_request-Free std c.request lim req w text made),
        empty-Secretless c,
        tt,
        tt,
        tt,
      )

  at_sample :
      (c : RunConfig std.float) (p : Point) (r : Run) → Concealed c r → Concealed c (add_point p r)
  unfolding add_point
  at_sample c p r h = h

  at_warning :
      (c : RunConfig std.float) (msg : Bytes) (r : Run) → Concealed c r → Concealed c (warn msg r)
  unfolding warn
  at_warning c msg r (guards, why, warnings, json, html) =
      elim (Bool-cases (ltb (length r.warnings) max_warnings)) [
        | inl e ↦
            rw e
              (guards, why, All-snoc (Secretless c) r.warnings _ warnings (guards msg), json, html)
        | inr e ↦ rw e (guards, why, warnings, json, html)
      ]

  some_redacted :
      (c : RunConfig std.float) (red : Redactor) (b : Option Bytes)
      → Guards c red
      → SomeSecretless c (redact_some red b)
  some_redacted c red none g = tt
  some_redacted c red (some b) g = g b

  at_end :
      (c : RunConfig std.float) (now : ℕ) (out : Outcome) (r : Run)
      → is_running r.state ≡ true
      → Concealed c r
      → Concealed c (finish now out r)
  unfolding finish
  at_end c now (failure msg) r on (guards, why, warnings, json, html) =
      (guards, guards msg, warnings, json, html)
  at_end c now (success j t) r on (guards, why, warnings, json, html) = (
    guards,
    why,
    warnings,
    some_redacted c r.redactor j guards,
    some_redacted c r.redactor t guards,
  )

  at_cancel : (c : RunConfig std.float) (r : Run) → Concealed c r → Concealed c (cancel_run r)
  at_cancel c r h = h

  -- When a form has started a run, then whatever happens in whatever order, no error, warning or
  -- report that the run stores holds a secret of the form: the value of a query parameter or a header
  -- that is marked as secret, the bearer token or the password, if it is at least three bytes long
  -- and has no '*'. The run stays in the store.
  pub start-Concealed :
      (id now : ℕ) (c : RunConfig std.float) (ctl next last : Controller)
      → start std id now c ctl ≡ ok next
      → Steps std next last
      → At (Concealed c) last.runs (length ctl.runs)
  start-Concealed id now c ctl next last h steps =
      let (p, accepted, free, same) = start-eq-ok std id now c ctl next h in
      Steps-At std (Concealed c) (at_sample c) (at_warning c) (at_end c) (at_cancel c)
        (length ctl.runs) steps
        (subst (λ x. At (Concealed c) x.runs (length ctl.runs)) same
          (
            new_run id now p,
            get_elem?_snoc ctl.runs (new_run id now p),
            fresh id now c ctl.limits p accepted,
          ))
