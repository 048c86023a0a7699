-- ===== src/Ui/Controller/Shown.antt =====
-- What the page and the reports show.
use loadtool.Prelude.{
  ℕ, zero, suc, ◌==◌, ==_iff, List, [], ◌∷◌, Option, none, some, Bool, true, false, if◌then◌else◌,
  Bytes, ◌≡◌, refl, subst, All, get_elem?, some_inj, Bool-cases, inl, inr, ◌⊎◌,
}
use loadtool.Prelude.Result.{ok, some_or, some_or-eq-ok, >>=-eq-ok}
use loadtool.Ui.Config.{Std}
use loadtool.Ui.Controller.{
  Run, Controller, State, running, completed, failed, cancelled, current, run_at, matches,
  not_found, not_ready,
}
use loadtool.Ui.Controller.View.{held, report}
use loadtool.Ui.Controller.Schedule.{Reach}
use loadtool.Ui.Controller.Ended.{Consistent, Outcomes, Reach-Consistent}

All-at :
    (P : Run → Type 0) (rs : List Run) (n : ℕ) (r : Run) → get_elem? rs n ≡ some r → All P rs → P r
All-at P [] n r h hs = absurd (cc h)
All-at P (s ∷ rs) zero r h (p, hs) = subst P (some_inj h) p
All-at P (s ∷ rs) (suc n) r h (p, hs) = All-at P rs n r h hs

All-current :
    (P : Run → Type 0) (ctl : Controller) (r : Run) → current ctl ≡ some r → All P ctl.runs → P r
unfolding current
All-current P ctl r h hs = at ctl.cur h
  where
    at : (c : Option ℕ) → run_at c ctl.runs ≡ some r → P r
    at none h = absurd (cc h)
    at (some n) h = All-at P ctl.runs n r h hs

held-current :
    (id : ℕ) (ctl : Controller) (r : Run)
    → held id ctl ≡ some r
    → (current ctl ≡ some r) × (r.id ≡ id)
held-current id ctl r h = found (current ctl) h
  where
    found :
        (o : Option Run) → (if matches id o then o else none) ≡ some r → (o ≡ some r) × (r.id ≡ id)
    found none h = absurd (cc h)
    found (some s) h = elim (Bool-cases (s.id == id)) [
      | inl e ↦
          let same : some s ≡ some r = rw e at h in
          (same, subst (λ x. x.id ≡ id) (some_inj same) ((==_iff s.id id).0 e))
      | inr e ↦ (let no : none ≡ some r = rw e at h in absurd (cc no))
    ]

-- Only a run that has ended without an error has a report.
reported :
    (s : State) (ended : Option ℕ) (msg : Bytes) (asked : Bool) (json html : Option Bytes)
    (b : Bytes)
    → Outcomes s ended msg asked json html
    → (json ≡ some b) ⊎ (html ≡ some b)
    → (s ≡ completed) ⊎ (s ≡ cancelled)
reported completed ended msg asked json html b h p = inl refl
reported cancelled ended msg asked json html b h p = inr refl
reported running ended msg asked json html b h (inl p) =
    (let none_there = h.2 in absurd (cc (none_there, p)))
reported running ended msg asked json html b h (inr p) =
    (let none_there = h.3 in absurd (cc (none_there, p)))
reported failed ended msg asked json html b h (inl p) =
    (let none_there = h.1 in absurd (cc (none_there, p)))
reported failed ended msg asked json html b h (inr p) =
    (let none_there = h.2 in absurd (cc (none_there, p)))

chosen :
    (html : Bool) (j t : Option Bytes) (b : Bytes)
    → (if html then t else j) ≡ some b
    → (j ≡ some b) ⊎ (t ≡ some b)
chosen true j t b h = inr h
chosen false j t b h = inl h

-- Report gives a report of the controller's current run only, under that run's identifier, and only
-- when the run has completed or was cancelled: never while it is under way or after it has failed.
pub report-Ended :
    (std : Std) (ctl : Controller) (id : ℕ) (html : Bool) (b : Bytes)
    → Reach std ctl
    → report id html ctl ≡ ok b
    → (r : Run) × (current ctl ≡ some r)
      × (r.id ≡ id)
      × ((r.state ≡ completed) ⊎ (r.state ≡ cancelled))
unfolding report
report-Ended std ctl id html b reach h =
    let (r, found, given) = >>=-eq-ok (some_or not_found (held id ctl)) _ h in
    let (now, same) = held-current id ctl r (some_or-eq-ok not_found (held id ctl) found) in
    let (outcome, few) = All-current Consistent ctl r now (Reach-Consistent std reach) in
    let some_report = chosen html r.report_json r.report_html b (some_or-eq-ok not_ready _ given) in
    (
      r,
      now,
      same,
      reported r.state r.ended r.err_msg r.cancelled r.report_json r.report_html b outcome
          some_report,
    )
