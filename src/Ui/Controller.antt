-- ===== src/Ui/Controller.antt =====
-- The controller and its runs (internal/ui/controller.go). A run is an object that the controller,
-- the goroutine of its test and the handlers share: the runs stand in a store by their number, in the
-- order in which they started, and the controller holds the number of the latest. Each method that
-- takes a lock is one step. What runner.Run returns and what the reports' writers write are parameters
-- of the steps; identifiers are random numbers, and times are numbers of nanoseconds.
pub mod View
pub mod Schedule
pub mod Followed
pub mod Single
pub mod Ended
pub mod Concealed
pub mod Shown
use loadtool.Prelude.{
  ℕ, ◌+◌, ◌-◌, List, [], ◌∷◌, ◌++◌, Option, none, some, Bool, true, false, ltb, ◌==◌, if◌then◌else◌,
  length, get_elem?, modify, map, Bytes,
}
use loadtool.Prelude.Int.{ℤ, pos}
use loadtool.Prelude.Result.{Result, ok, err, ◌>>=◌, some_or}
use loadtool.Ui.Redact.{Redactor, new_redactor, redact}
use loadtool.Ui.Config.{Limits, Plan, Problem, RunConfig, Std}
use loadtool.Ui.Config.Build.{validate}

-- Run states.
pub data State : Type 0 where
  running completed failed cancelled : State

unfoldable pub is_running : State → Bool
is_running running = true
is_running completed = false
is_running failed = false
is_running cancelled = false

abbrev pub max_warnings : ℕ
max_warnings = 20

-- What the status shows of a metrics.Point.
pub record Point : Type 0 where
  pub at : ℕ
  pub requests : ℕ
  pub failed : ℕ
  pub mean : ℕ
  pub p50 : ℕ
  pub p95 : ℕ
  pub p99 : ℕ
  pub vus : ℕ

pub record Run : Type 0 where
  pub id : ℕ
  pub label : Bytes
  pub vus : ℤ
  pub dur : ℤ
  pub started : ℕ
  pub redactor : Redactor
  pub state : State
  pub ended : Option ℕ
  pub cancelled : Bool
  pub points : List Point
  pub err_msg : Bytes
  pub warnings : List Bytes
  pub report_json : Option Bytes
  pub report_html : Option Bytes
  -- Whether the run's context has been cancelled.
  pub stopped : Bool

-- Options: the limits, with the defaults that stand for zeros, and the times a run may take.
abbrev pub or_default : ℕ → ℕ → ℕ
or_default n d = if n == 0 then d else n

pub record Controller : Type 0 where
  pub limits : Limits
  pub runs : List Run
  pub cur : Option ℕ

-- NewController; the other options are a writer and a function.
unfoldable pub new_controller : ℕ → ℕ → ℕ → Bool → Controller
new_controller max_vus max_duration request_timeout allow_private = record {
  limits = record {
    max_vus = pos (or_default max_vus 50);
    max_duration = pos (or_default max_duration 300000000000);
    allow_private = allow_private;
    request_timeout = pos (or_default request_timeout 10000000000);
  };
  runs = [];
  cur = none;
}

-- The run the controller holds.
abbrev pub run_at : Option ℕ → List Run → Option Run
run_at none runs = none
run_at (some n) runs = get_elem? runs n

unfoldable pub current : Controller → Option Run
current ctl = run_at ctl.cur ctl.runs

abbrev pub is_busy : Option Run → Bool
is_busy none = false
is_busy (some r) = is_running r.state

unfoldable pub new_run : ℕ → ℕ → Plan → Run
new_run id now p = record {
  id = id;
  label = p.request.label;
  vus = p.vus;
  dur = p.duration;
  started = now;
  redactor = new_redactor p.request.secrets;
  state = running;
  ended = none;
  cancelled = false;
  points = [];
  err_msg = [];
  warnings = [];
  report_json = none;
  report_html = none;
  stopped = false;
}

pub data Fault : Type 0 where
  refused : Problem → Fault
  busy not_found not_ready : Fault

abbrev pub as_fault : Result Problem Plan → Result Fault Plan
as_fault (err why) = err (refused why)
as_fault (ok p) = ok p

-- The part of Start that holds the lock, with the new identifier and the time.
unfoldable pub start_plan : ℕ → ℕ → Plan → Controller → Result Fault Controller
start_plan id now p ctl =
    if is_busy (current ctl)
    then err busy
    else ok
        (record ctl { runs = ctl.runs ++ (new_run id now p ∷ []); cur = some (length ctl.runs) })

unfoldable pub start :
    (std : Std) → ℕ → ℕ → RunConfig std.float → Controller → Result Fault Controller
start std id now c ctl = as_fault (validate std c ctl.limits) >>= λ p. start_plan id now p ctl

-- What runner.Run returns: an error, or a result, here what report.JSON and report.HTML write of it.
pub data Outcome : Type 0 where
  failure : Bytes → Outcome
  success : Option Bytes → Option Bytes → Outcome

abbrev pub redact_some : Redactor → Option Bytes → Option Bytes
redact_some r none = none
redact_some r (some b) = some (redact r b)

-- The end of execute, after runPlan.
unfoldable pub finish : ℕ → Outcome → Run → Run
finish now (failure why) r = record r {
  ended = some now;
  state = failed;
  err_msg = redact r.redactor why;
  stopped = true;
}
finish now (success json html) r = record r {
  ended = some now;
  state = if r.cancelled then cancelled else completed;
  report_json = redact_some r.redactor json;
  report_html = redact_some r.redactor html;
  stopped = true;
}

unfoldable pub add_point : Point → Run → Run
add_point p r = record r { points = r.points ++ (p ∷ []) }

unfoldable pub warn : Bytes → Run → Run
warn msg r = record r {
  warnings =
      if ltb (length r.warnings) max_warnings
      then r.warnings ++ (redact r.redactor msg ∷ [])
      else r.warnings;
}

abbrev pub matches : ℕ → Option Run → Bool
matches id none = false
matches id (some r) = r.id == id

-- get: the number of the latest run, if it has the identifier.
unfoldable pub get : ℕ → Controller → Option ℕ
get id ctl = if matches id (current ctl) then ctl.cur else none

abbrev pub cancel_run : Run → Run
cancel_run r = record r {
  cancelled = if is_running r.state then true else r.cancelled;
  stopped = true;
}

abbrev pub change : Controller → ℕ → (Run → Run) → Controller
change ctl n f = record ctl { runs = modify ctl.runs n f }

unfoldable pub cancel : ℕ → Controller → Result Fault Controller
cancel id ctl = some_or not_found (get id ctl) >>= λ n. ok (change ctl n cancel_run)
