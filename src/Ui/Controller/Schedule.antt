-- ===== src/Ui/Controller/Schedule.antt =====
-- What may happen to a controller, one locked section at a time, in any order.
use loadtool.Prelude.{
  ℕ, zero, suc, List, [], ◌∷◌, ◌++◌, some, Bool, true, false, if◌then◌else◌, Bytes, ◌≡◌, refl,
  subst, sym, ap, ◌∙◌, some_inj, All, All-snoc, get_elem?, modify, length,
}
use loadtool.Prelude.Result.{Result, ok, err, some_or, some_or-eq-ok, >>=-eq-ok, ok_inj}
use loadtool.Ui.Config.{Limits, Plan, Problem, RunConfig, Std}
use loadtool.Ui.Config.Build.{validate}
use loadtool.Ui.Controller.{
  Controller, Run, Point, Outcome, is_running, is_busy, current, new_controller, new_run, start,
  busy, not_found, start_plan, as_fault, finish, add_point, warn, cancel, get, cancel_run, change,
}

-- addPoint and warn may be called at any time. finish is the part of `execute` behind runPlan: Start
-- begins one execute for each run, so it happens once for a run, and nothing else ends a run. The run
-- is therefore under way when it happens.
pub data Step (std : Std) : Controller → Controller → Type 0 where
  starts :
      (id now : ℕ) (c : RunConfig std.float) {ctl next : Controller}
      → start std id now c ctl ≡ ok next
      → Step std ctl next
  samples : (n : ℕ) (p : Point) {ctl : Controller} → Step std ctl (change ctl n (add_point p))
  warns : (n : ℕ) (msg : Bytes) {ctl : Controller} → Step std ctl (change ctl n (warn msg))
  ends :
      (n now : ℕ) (out : Outcome) (r : Run) {ctl : Controller}
      → get_elem? ctl.runs n ≡ some r
      → is_running r.state ≡ true
      → Step std ctl (change ctl n (finish now out))
  cancels : (id : ℕ) {ctl next : Controller} → cancel id ctl ≡ ok next → Step std ctl next

-- The states of a controller that begins with some options.
pub data Reach (std : Std) : Controller → Type 0 where
  begun :
      (max_vus max_duration request_timeout : ℕ) (allow_private : Bool)
      → Reach std (new_controller max_vus max_duration request_timeout allow_private)
  after : {ctl next : Controller} → Reach std ctl → Step std ctl next → Reach std next

-- From one state to a later one.
pub data Steps (std : Std) : Controller → Controller → Type 0 where
  stay : {ctl : Controller} → Steps std ctl ctl
  further : {ctl mid next : Controller} → Steps std ctl mid → Step std mid next → Steps std ctl next

-- A plan that Start accepts is appended, and becomes the current one; nothing was running in its place.
abbrev pub with_run : Run → Controller → Controller
with_run r ctl = record ctl { runs = ctl.runs ++ (r ∷ []); cur = some (length ctl.runs) }

start_plan-eq-ok :
    (id now : ℕ) (p : Plan) (ctl next : Controller)
    → start_plan id now p ctl ≡ ok next
    → (is_busy (current ctl) ≡ false) × (with_run (new_run id now p) ctl ≡ next)
unfolding start_plan
start_plan-eq-ok id now p ctl next h = free (is_busy (current ctl)) h
  where
    free :
        (b : Bool)
        → (if b then err busy else ok (with_run (new_run id now p) ctl)) ≡ ok next
        → (b ≡ false) × (with_run (new_run id now p) ctl ≡ next)
    free true h = absurd (cc h)
    free false h = (refl, ok_inj h)

plain : (r : Result Problem Plan) (p : Plan) → as_fault r ≡ ok p → r ≡ ok p
plain (ok q) p h = ap ok (ok_inj h)
plain (err e) p h = absurd (cc h)

pub start-eq-ok :
    (std : Std) (id now : ℕ) (c : RunConfig std.float) (ctl next : Controller)
    → start std id now c ctl ≡ ok next
    → (p : Plan) × (validate std c ctl.limits ≡ ok p)
      × (is_busy (current ctl) ≡ false)
      × (with_run (new_run id now p) ctl ≡ next)
unfolding start
start-eq-ok std id now c ctl next h =
    let (p, accepted, rest) = >>=-eq-ok (as_fault (validate std c ctl.limits)) _ h in
    let (free, same) = start_plan-eq-ok id now p ctl next rest in
    (p, plain (validate std c ctl.limits) p accepted, free, same)

pub cancel-eq-ok :
    (id : ℕ) (ctl next : Controller)
    → cancel id ctl ≡ ok next
    → (n : ℕ) × (get id ctl ≡ some n) × (change ctl n cancel_run ≡ next)
unfolding cancel
cancel-eq-ok id ctl next h =
    let (n, found, rest) = >>=-eq-ok (some_or not_found (get id ctl)) _ h in
    (n, some_or-eq-ok not_found (get id ctl) found, ok_inj rest)

All-modify :
    {P : Run → Type 0} (rs : List Run) (n : ℕ) (f : Run → Run)
    → ((r : Run) → get_elem? rs n ≡ some r → P r → P (f r))
    → All P rs
    → All P (modify rs n f)
All-modify [] n f step h = tt
All-modify (r ∷ rs) zero f step (h, hs) = (step r refl h, hs)
All-modify (r ∷ rs) (suc n) f step (h, hs) = (h, All-modify rs n f step hs)

-- A property of one run that a new run has and every change keeps holds of every run at all times.
module _ (std : Std) (P : Run → Type 0)
    (fresh : (id now : ℕ) (c : RunConfig std.float) (lim : Limits) (p : Plan)
      → validate std c lim ≡ ok p
      → P (new_run id now p))
    (at_sample : (p : Point) (r : Run) → P r → P (add_point p r))
    (at_warning : (msg : Bytes) (r : Run) → P r → P (warn msg r))
    (at_end : (now : ℕ) (out : Outcome) (r : Run)
      → is_running r.state ≡ true
      → P r
      → P (finish now out r))
    (at_cancel : (r : Run) → P r → P (cancel_run r)) where
  At-running :
      (ctl : Controller) (n : ℕ) (f : Run → Run) (r : Run)
      → get_elem? ctl.runs n ≡ some r
      → is_running r.state ≡ true
      → ((r : Run) → is_running r.state ≡ true → P r → P (f r))
      → All P ctl.runs
      → All P (change ctl n f).runs
  At-running ctl n f r found on step all =
      All-modify ctl.runs n f
        (λ s at h. step s (subst (λ x. is_running x.state ≡ true) (some_inj (sym found ∙ at)) on) h)
        all

  Step-All : {ctl next : Controller} → Step std ctl next → All P ctl.runs → All P next.runs
  Step-All {ctl = ctl} {next = next} (starts id now c h) all =
      let (p, accepted, free, same) = start-eq-ok std id now c ctl next h in
      subst (λ x. All P x.runs) same
        (All-snoc P ctl.runs (new_run id now p) all (fresh id now c ctl.limits p accepted))
  Step-All (samples n p {ctl = ctl}) all =
      All-modify ctl.runs n (add_point p) (λ r at. at_sample p r) all
  Step-All (warns n msg {ctl = ctl}) all =
      All-modify ctl.runs n (warn msg) (λ r at. at_warning msg r) all
  Step-All (ends n now out r {ctl = ctl} found on) all =
      At-running ctl n (finish now out) r found on (at_end now out) all
  Step-All {ctl = ctl} {next = next} (cancels id h) all =
      let (n, found, same) = cancel-eq-ok id ctl next h in
      subst (λ x. All P x.runs) same (All-modify ctl.runs n cancel_run (λ r at. at_cancel r) all)

  pub Reach-All : {ctl : Controller} → Reach std ctl → All P ctl.runs
  unfolding new_controller
  Reach-All (begun max_vus max_duration request_timeout allow_private) = tt
  Reach-All (after h step) = Step-All step (Reach-All h)
