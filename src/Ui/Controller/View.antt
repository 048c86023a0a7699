-- ===== src/Ui/Controller/View.antt =====
-- What the handlers read: the status that the page polls, and the reports. A point is shown with all
-- that it holds; the conversion of nanoseconds to milliseconds is left out.
use loadtool.Prelude.{
  ℕ, ◌+◌, ◌-◌, List, [], ◌∷◌, ◌++◌, Option, none, some, Bool, if◌then◌else◌, Bytes,
}
use loadtool.Prelude.Int.{ℤ}
use loadtool.Prelude.Result.{Result, ok, ◌>>=◌, some_or}
use loadtool.Ui.Controller.{
  Controller, Run, Point, State, Fault, not_found, not_ready, is_running, matches, current,
}

pub record Live : Type 0 where
  pub requests : ℕ
  pub failed : ℕ
  pub points : List Point

pub record Status : Type 0 where
  pub id : ℕ
  pub state : State
  pub label : Bytes
  pub started_at : ℕ
  pub elapsed : ℕ
  pub duration : ℤ
  pub configured_vus : ℤ
  pub active_vus : ℕ
  pub live : Live
  pub error : Bytes
  pub warnings : List Bytes
  pub final : Option Bytes

-- The loop over the points.
unfoldable pub gather : Live → List Point → Live
gather l [] = l
gather l (p ∷ ps) =
    gather
      (record {
        requests = l.requests + p.requests;
        failed = l.failed + p.failed;
        points = l.points ++ (p ∷ []);
      })
      ps

abbrev pub last_vus : List Point → ℕ
last_vus [] = 0
last_vus (p ∷ []) = p.vus
last_vus (p ∷ q ∷ ps) = last_vus (q ∷ ps)

abbrev pub end_of : ℕ → Option ℕ → ℕ
end_of now none = now
end_of now (some ended) = ended

unfoldable pub status_of : ℕ → Run → Status
status_of now r = record {
  id = r.id;
  state = r.state;
  label = r.label;
  started_at = r.started;
  elapsed = end_of now r.ended - r.started;
  duration = r.dur;
  configured_vus = r.vus;
  active_vus = if is_running r.state then last_vus r.points else 0;
  live = gather (record { requests = 0; failed = 0; points = [] }) r.points;
  error = r.err_msg;
  warnings = r.warnings;
  final = r.report_json;
}

-- The run that `get` finds.
abbrev pub held : ℕ → Controller → Option Run
held id ctl = if matches id (current ctl) then current ctl else none

unfoldable pub status : ℕ → ℕ → Controller → Result Fault Status
status id now ctl = some_or not_found (held id ctl) >>= λ r. ok (status_of now r)

-- Report of the kind "html", or of any other.
unfoldable pub report : ℕ → Bool → Controller → Result Fault Bytes
report id html ctl = some_or not_found (held id ctl) >>= λ r.
    some_or not_ready (if html then r.report_html else r.report_json)
