-- ===== src/Ui/Controller/Single.antt =====
-- How many tests are under way.
use loadtool.Prelude.{
  ℕ, zero, suc, ◌≤◌, List, [], ◌∷◌, ◌++◌, Option, none, some, Bool, false, ◌≡◌, refl, ◌∙◌, sym,
  subst, ap, arith, Bool-cases, inl, inr, length, length-append, length-modify, count, modify,
  get_elem?,
}
use loadtool.Ui.Config.{Std}
use loadtool.Ui.Controller.{
  Controller, Run, Outcome, failure, success, is_running, is_busy, run_at, current, new_run,
  new_controller, finish, add_point, warn, cancel_run, change,
}
use loadtool.Ui.Controller.Schedule.{
  Step, starts, samples, warns, ends, cancels, Reach, begun, after, start-eq-ok, cancel-eq-ok,
}

abbrev pub under_way : Run → Bool
under_way r = is_running r.state

-- Every run but the last has ended.
abbrev pub Idle : List Run → Type 0
Idle [] = Unit
Idle (r ∷ []) = Unit
Idle (r ∷ s ∷ rs) = (under_way r ≡ false) × Idle (s ∷ rs)

abbrev pub latest : List Run → Option ℕ
latest [] = none
latest (r ∷ rs) = some (length rs)

abbrev pub Single : Controller → Type 0
Single ctl = Idle ctl.runs × (ctl.cur ≡ latest ctl.runs)

last_run : List Run → Option Run
last_run [] = none
last_run (r ∷ []) = some r
last_run (r ∷ s ∷ rs) = last_run (s ∷ rs)

last_at : (r : Run) (rs : List Run) → get_elem? (r ∷ rs) (length rs) ≡ last_run (r ∷ rs)
unfolding last_run
last_at r [] = refl
last_at r (s ∷ rs) = last_at s rs

run_latest : (rs : List Run) → run_at (latest rs) rs ≡ last_run rs
unfolding last_run
run_latest [] = refl
run_latest (r ∷ rs) = last_at r rs

current_last : (ctl : Controller) → ctl.cur ≡ latest ctl.runs → current ctl ≡ last_run ctl.runs
unfolding current
current_last ctl h = ap (λ c. run_at c ctl.runs) h ∙ run_latest ctl.runs

-- If the last one has ended as well, a further run is the only one under way.
Idle-snoc :
    (rs : List Run) (r : Run) → Idle rs → is_busy (last_run rs) ≡ false → Idle (rs ++ (r ∷ []))
unfolding last_run
Idle-snoc [] r h free = tt
Idle-snoc (s ∷ []) r h free = (free, tt)
Idle-snoc (s ∷ t ∷ rs) r (done, h) free = (done, Idle-snoc (t ∷ rs) r h free)

Idle-modify :
    (rs : List Run) (n : ℕ) (f : Run → Run)
    → ((r : Run) → under_way r ≡ false → under_way (f r) ≡ false)
    → Idle rs
    → Idle (modify rs n f)
Idle-modify [] n f keeps h = tt
Idle-modify (r ∷ []) zero f keeps h = tt
Idle-modify (r ∷ []) (suc n) f keeps h = tt
Idle-modify (r ∷ s ∷ rs) zero f keeps (done, h) = (keeps r done, h)
Idle-modify (r ∷ s ∷ rs) (suc zero) f keeps (done, h) = (done, Idle-modify (s ∷ rs) zero f keeps h)
Idle-modify (r ∷ s ∷ rs) (suc (suc n)) f keeps (done, h) =
    (done, Idle-modify (s ∷ rs) (suc n) f keeps h)

latest-modify : (rs : List Run) (n : ℕ) (f : Run → Run) → latest (modify rs n f) ≡ latest rs
latest-modify [] n f = refl
latest-modify (r ∷ rs) zero f = refl
latest-modify (r ∷ rs) (suc n) f = ap some (length-modify rs n f)

latest_snoc : (rs : List Run) (r : Run) → latest (rs ++ (r ∷ [])) ≡ some (length rs)
latest_snoc [] r = refl
latest_snoc (s ∷ rs) r = ap some (omega (arith, length-append rs (r ∷ [])))

change-Single :
    (ctl : Controller) (n : ℕ) (f : Run → Run)
    → ((r : Run) → under_way r ≡ false → under_way (f r) ≡ false)
    → Single ctl
    → Single (change ctl n f)
change-Single ctl n f keeps (idle, same) =
    (Idle-modify ctl.runs n f keeps idle, same ∙ sym (latest-modify ctl.runs n f))

finish_keeps : (now : ℕ) (out : Outcome) (r : Run) → under_way (finish now out r) ≡ false
unfolding finish is_running
finish_keeps now (failure why) r = refl
finish_keeps now (success json html) r = elim (Bool-cases r.cancelled) [
  | inl e ↦ rw e
  | inr e ↦ rw e
]

Step-Single : (std : Std) {ctl next : Controller} → Step std ctl next → Single ctl → Single next
unfolding add_point warn
Step-Single std {ctl = ctl} {next = next} (starts id now c h) (idle, same) =
    let (p, accepted, free, result) = start-eq-ok std id now c ctl next h in
    let ended : is_busy (last_run ctl.runs) ≡ false =
      subst (λ r. is_busy r ≡ false) (current_last ctl same) free in
    subst Single result (
      Idle-snoc ctl.runs (new_run id now p) idle ended,
      sym (latest_snoc ctl.runs (new_run id now p)),
    )
Step-Single std (samples n p {ctl = ctl}) h = change-Single ctl n (add_point p) (λ r off. off) h
Step-Single std (warns n msg {ctl = ctl}) h = change-Single ctl n (warn msg) (λ r off. off) h
Step-Single std (ends n now out r {ctl = ctl} found on) h =
    change-Single ctl n (finish now out) (λ r off. finish_keeps now out r) h
Step-Single std {ctl = ctl} {next = next} (cancels id h) single =
    let (n, found, same) = cancel-eq-ok id ctl next h in
    subst Single same (change-Single ctl n cancel_run (λ r off. off) single)

Reach_Single : (std : Std) {ctl : Controller} → Reach std ctl → Single ctl
unfolding new_controller
Reach_Single std (begun max_vus max_duration request_timeout allow_private) = (tt, refl)
Reach_Single std (after h step) = Step-Single std step (Reach_Single std h)

at_most_one : (rs : List Run) → Idle rs → count under_way rs ≤ 1
at_most_one [] h = omega arith
at_most_one (r ∷ []) h = ground arith
at_most_one (r ∷ s ∷ rs) (done, h) = let ih = at_most_one (s ∷ rs) h in ground arith

-- Whatever happens in whatever order, at most one run of the controller is under way, and the
-- controller holds the latest of its runs.
pub Reach-Single :
    (std : Std) {ctl : Controller}
    → Reach std ctl
    → (count under_way ctl.runs ≤ 1) × (ctl.cur ≡ latest ctl.runs)
Reach-Single std h = let (idle, same) = Reach_Single std h in (at_most_one _ idle, same)
