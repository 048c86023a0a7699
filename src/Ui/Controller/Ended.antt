-- ===== src/Ui/Controller/Ended.antt =====
-- How a run ends, and what stays then.
use loadtool.Prelude.{
  ℕ, ◌≤◌, List, [], ◌∷◌, ◌++◌, ltb, sym, ◌∙◌, Option, none, some, Bool, true, false, if◌then◌else◌,
  Bytes, ◌≡◌, ◌≢◌, refl, ap, All, arith, Bool-cases, inl, inr, length, get_elem?, length-append,
}
use mathlib.Core.List.{append-nil, append_assoc}
use loadtool.Ui.Config.{Std}
use loadtool.Ui.Redact.{redact}
use loadtool.Ui.Controller.{
  Controller, Run, Point, Outcome, failure, success, State, running, completed, failed, cancelled,
  is_running, new_run, finish, add_point, warn, cancel_run, max_warnings,
}
use loadtool.Ui.Controller.Schedule.{Reach, Reach-All, Steps}
use loadtool.Ui.Controller.Followed.{At, Steps-At}

-- A run has an end unless it is under way; then it shows no error and no report. Only a failed run
-- has an error, and it has no report. A run that is asked to stop does not count as completed.
abbrev pub Outcomes : State → Option ℕ → Bytes → Bool → Option Bytes → Option Bytes → Type 0
Outcomes running ended msg asked json html =
    (ended ≡ none) × (msg ≡ []) × (json ≡ none) × (html ≡ none)
Outcomes completed ended msg asked json html = (ended ≢ none) × (msg ≡ []) × (asked ≡ false)
Outcomes failed ended msg asked json html = (ended ≢ none) × (json ≡ none) × (html ≡ none)
Outcomes cancelled ended msg asked json html = (ended ≢ none) × (msg ≡ []) × (asked ≡ true)

abbrev pub Consistent : Run → Type 0
Consistent r =
    Outcomes r.state r.ended r.err_msg r.cancelled r.report_json r.report_html
    × (length r.warnings ≤ max_warnings)

at_sample : (p : Point) (r : Run) → Consistent r → Consistent (add_point p r)
unfolding add_point
at_sample p r h = h

at_warning : (msg : Bytes) (r : Run) → Consistent r → Consistent (warn msg r)
unfolding warn
at_warning msg r (h, few) =
    (h, ground (arith, length-append r.warnings (redact r.redactor msg ∷ [])))

-- A run under way has no error, nor a report.
under_way :
    (s : State) (ended : Option ℕ) (msg : Bytes) (asked : Bool) (json html : Option Bytes)
    → is_running s ≡ true
    → Outcomes s ended msg asked json html
    → (msg ≡ []) × (json ≡ none) × (html ≡ none)
unfolding is_running
under_way running ended msg asked json html on (late, silent, j, h) = (silent, j, h)
under_way completed ended msg asked json html on h = absurd (cc on)
under_way failed ended msg asked json html on h = absurd (cc on)
under_way cancelled ended msg asked json html on h = absurd (cc on)

timed : {now : ℕ} → some now ≢ none
timed {now} h = absurd (cc h)

at_end :
    (now : ℕ) (out : Outcome) (r : Run)
    → is_running r.state ≡ true
    → Consistent r
    → Consistent (finish now out r)
unfolding finish
at_end now (failure why) r on (h, few) =
    let (silent, j, t) = under_way r.state _ _ r.cancelled _ _ on h in ((timed, j, t), few)
at_end now (success json html) r on (h, few) =
    let (silent, j, t) = under_way r.state _ _ r.cancelled _ _ on h in
    elim (Bool-cases r.cancelled) [
      | inl e ↦ rw e ((timed, silent, refl), few)
      | inr e ↦ rw e ((timed, silent, refl), few)
    ]

stopping :
    (s : State) (ended : Option ℕ) (msg : Bytes) (asked : Bool) (json html : Option Bytes)
    → Outcomes s ended msg asked json html
    → Outcomes s ended msg (if is_running s then true else asked) json html
unfolding is_running
stopping running ended msg asked json html h = h
stopping completed ended msg asked json html h = h
stopping failed ended msg asked json html h = h
stopping cancelled ended msg asked json html h = h

at_cancel : (r : Run) → Consistent r → Consistent (cancel_run r)
at_cancel r (h, few) = (stopping r.state _ _ _ _ _ h, few)

-- Whatever happens in whatever order, each run of the controller is consistent: a run under way has
-- no end, no error and no report, a failed run has no report, a completed one was not asked to stop,
-- a cancelled one was, and both have no error; every other run than one under way has an end. A run
-- keeps at most twenty warnings.
pub Reach-Consistent : (std : Std) {ctl : Controller} → Reach std ctl → All Consistent ctl.runs
unfolding new_run
Reach-Consistent std reach =
    Reach-All std Consistent (λ id now c lim p h. ((refl, refl, refl, refl), omega arith)) at_sample
      at_warning at_end at_cancel reach

-- The first list begins the second one.
abbrev pub Begins {ℓ} : {A : Type ℓ} → List A → List A → Type ℓ
Begins xs ys = (more : List _) × (ys ≡ xs ++ more)

-- The outcome and the form of a run are the same; points and warnings are added at the end only.
pub record SameOutcome (r s : Run) : Type 0 where
  pub ended : s.ended ≡ r.ended
  pub state : s.state ≡ r.state
  pub err_msg : s.err_msg ≡ r.err_msg
  pub asked : s.cancelled ≡ r.cancelled
  pub json : s.report_json ≡ r.report_json
  pub html : s.report_html ≡ r.report_html
  pub id : s.id ≡ r.id
  pub points : Begins r.points s.points
  pub warnings : Begins r.warnings s.warnings

SameOutcome-self : (r : Run) → SameOutcome r r
SameOutcome-self r = record {
  ended = refl;
  state = refl;
  err_msg = refl;
  asked = refl;
  json = refl;
  html = refl;
  id = refl;
  points = ([], sym (append-nil r.points));
  warnings = ([], sym (append-nil r.warnings));
}

Begins-snoc {ℓ} : {A : Type ℓ} (xs ys : List A) (y : A) → Begins xs ys → Begins xs (ys ++ (y ∷ []))
Begins-snoc xs ys y (more, same) =
    (more ++ (y ∷ []), ap (λ l. l ++ (y ∷ [])) same ∙ append_assoc xs more (y ∷ []))

sample_keeps : (p : Point) (r s : Run) → SameOutcome r s → SameOutcome r (add_point p s)
unfolding add_point
sample_keeps p r s h = record {
  ended = h.ended;
  state = h.state;
  err_msg = h.err_msg;
  asked = h.asked;
  json = h.json;
  html = h.html;
  id = h.id;
  points = Begins-snoc r.points s.points p h.points;
  warnings = h.warnings;
}

warning_keeps : (msg : Bytes) (r s : Run) → SameOutcome r s → SameOutcome r (warn msg s)
unfolding warn
warning_keeps msg r s h = record {
  ended = h.ended;
  state = h.state;
  err_msg = h.err_msg;
  asked = h.asked;
  json = h.json;
  html = h.html;
  id = h.id;
  points = h.points;
  warnings = kept (ltb (length s.warnings) max_warnings);
}
  where
    kept :
        (b : Bool)
        → Begins r.warnings (if b then s.warnings ++ (redact s.redactor msg ∷ []) else s.warnings)
    kept true = Begins-snoc r.warnings s.warnings (redact s.redactor msg) h.warnings
    kept false = h.warnings

cancel_keeps :
    (r s : Run) → is_running r.state ≡ false → SameOutcome r s → SameOutcome r (cancel_run s)
cancel_keeps r s off h = record {
  ended = h.ended;
  state = h.state;
  err_msg = h.err_msg;
  asked = ap (λ b. if b then true else s.cancelled) (ap is_running h.state ∙ off) ∙ h.asked;
  json = h.json;
  html = h.html;
  id = h.id;
  points = h.points;
  warnings = h.warnings;
}

-- The outcome of a run that has ended stays as it is, whatever samples, warnings, starts of other
-- runs, ends of runs that are under way and cancellations happen in whatever order: its state, its
-- end, its error, whether it counts as cancelled, and its reports. Points and warnings are only added
-- behind those that it has.
pub ended_stays :
    (std : Std) (ctl last : Controller) (n : ℕ) (r : Run)
    → get_elem? ctl.runs n ≡ some r
    → is_running r.state ≡ false
    → Steps std ctl last
    → At (SameOutcome r) last.runs n
ended_stays std ctl last n r found off steps =
    Steps-At std (SameOutcome r) (λ p s h. sample_keeps p r s h) (λ m s h. warning_keeps m r s h)
      (λ now out s on h. never now out s h on) (λ s h. cancel_keeps r s off h) n steps
      (r, found, SameOutcome-self r)
  where
    never :
        (now : ℕ) (out : Outcome) (s : Run)
        → SameOutcome r s
        → is_running s.state ≡ true
        → SameOutcome r (finish now out s)
    never now out s h on = let still = ap is_running h.state ∙ off in absurd (cc (on, still))
