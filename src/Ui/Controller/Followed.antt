-- ===== src/Ui/Controller/Followed.antt =====
-- One run followed through what happens to the controller.
use loadtool.Prelude.{
  ℕ, zero, suc, List, [], ◌∷◌, ◌++◌, some, true, Bytes, ◌≡◌, refl, ◌∙◌, sym, subst, some_inj,
  get_elem?, modify, length,
}
use loadtool.Ui.Config.{Std}
use loadtool.Ui.Controller.{
  Controller, Run, Point, Outcome, is_running, new_run, finish, add_point, warn, cancel_run, change,
}
use loadtool.Ui.Controller.Schedule.{
  Step, starts, samples, warns, ends, cancels, Steps, stay, further, start-eq-ok, cancel-eq-ok,
}

-- The run of a number has the property.
abbrev pub At : (Run → Type 0) → List Run → ℕ → Type 0
At P rs n = (r : Run) × (get_elem? rs n ≡ some r) × P r

pub get_elem?_snoc : (rs : List Run) (r : Run) → get_elem? (rs ++ (r ∷ [])) (length rs) ≡ some r
get_elem?_snoc [] r = refl
get_elem?_snoc (s ∷ rs) r = get_elem?_snoc rs r

At-snoc : (P : Run → Type 0) (rs : List Run) (n : ℕ) (s : Run) → At P rs n → At P (rs ++ (s ∷ [])) n
At-snoc P [] n s (r, h, p) = absurd (cc h)
At-snoc P (q ∷ rs) zero s (r, h, p) = (r, h, p)
At-snoc P (q ∷ rs) (suc n) s h = At-snoc P rs n s h

At-modify :
    (P : Run → Type 0) (rs : List Run) (m n : ℕ) (f : Run → Run)
    → ((r : Run) → get_elem? rs m ≡ some r → P r → P (f r))
    → At P rs n
    → At P (modify rs m f) n
At-modify P [] m n f step h = h
At-modify P (q ∷ rs) zero zero f step (r, h, p) =
    (f q, refl, step q refl (subst P (some_inj (sym h)) p))
At-modify P (q ∷ rs) zero (suc n) f step h = h
At-modify P (q ∷ rs) (suc m) zero f step h = h
At-modify P (q ∷ rs) (suc m) (suc n) f step h = At-modify P rs m n f step h

module _ (std : Std) (P : Run → Type 0)
    (at_sample : (p : Point) (r : Run) → P r → P (add_point p r))
    (at_warning : (msg : Bytes) (r : Run) → P r → P (warn msg r))
    (at_end : (now : ℕ) (out : Outcome) (r : Run)
      → is_running r.state ≡ true
      → P r
      → P (finish now out r))
    (at_cancel : (r : Run) → P r → P (cancel_run r)) (n : ℕ) where
  At-running :
      (ctl : Controller) (m : ℕ) (f : Run → Run) (r : Run)
      → get_elem? ctl.runs m ≡ some r
      → is_running r.state ≡ true
      → ((r : Run) → is_running r.state ≡ true → P r → P (f r))
      → At P ctl.runs n
      → At P (change ctl m f).runs n
  At-running ctl m f r found on step h =
      At-modify P ctl.runs m n f
        (λ s at p. step s (subst (λ x. is_running x.state ≡ true) (some_inj (sym found ∙ at)) on) p)
        h

  Step-At : {ctl next : Controller} → Step std ctl next → At P ctl.runs n → At P next.runs n
  Step-At {ctl = ctl} {next = next} (starts id now c h) at =
      let (p, accepted, free, same) = start-eq-ok std id now c ctl next h in
      subst (λ x. At P x.runs n) same (At-snoc P ctl.runs n (new_run id now p) at)
  Step-At (samples m p {ctl = ctl}) at =
      At-modify P ctl.runs m n (add_point p) (λ r found. at_sample p r) at
  Step-At (warns m msg {ctl = ctl}) at =
      At-modify P ctl.runs m n (warn msg) (λ r found. at_warning msg r) at
  Step-At (ends m now out r {ctl = ctl} found on) at =
      At-running ctl m (finish now out) r found on (at_end now out) at
  Step-At {ctl = ctl} {next = next} (cancels id h) at =
      let (m, found, same) = cancel-eq-ok id ctl next h in
      subst (λ x. At P x.runs n) same
        (At-modify P ctl.runs m n cancel_run (λ r found p. at_cancel r p) at)

  -- A property that the changes of a run keep stays with the run.
  pub Steps-At : {ctl next : Controller} → Steps std ctl next → At P ctl.runs n → At P next.runs n
  Steps-At stay at = at
  Steps-At (further steps step) at = Step-At step (Steps-At steps at)
