-- ===== src/Ui/Server.antt =====
-- The controller's HTTP interface (internal/ui/server.go): the checks before a request is routed and
-- the status and effect of each handler. The router of net/http, mime.ParseMediaType and the JSON
-- decoder are parameters; of an answer only the status is modelled.
pub mod Trusted
use loadtool.Prelude.{
  ℕ, List, [], ◌∷◌, Option, none, some, Bool, true, false, ◌&&◌, ◌||◌, not, if◌then◌else◌, Bytes,
  codes, bytes_eq, starts_with, to_lower, length, drop, map,
}
use loadtool.Prelude.Result.{Result, ok, err, ◌>>=◌, ◌>>◌, refuse}
use loadtool.Ui.Config.{ApiRequest, RunConfig, Std, Limits, Request, Problem, is_one_of}
use loadtool.Ui.Config.Build.{validate_request}
use loadtool.Ui.Controller.{Controller, Fault, refused, busy, not_found, not_ready, start, cancel}
use loadtool.Ui.Controller.View.{Status, status, report}

pub record Server : Type 0 where
  pub token : Bytes
  pub hosts : List Bytes

-- NewServer, without the controller and the routes.
unfoldable pub new_server : Bytes → List Bytes → Server
new_server token hosts = record { token = token; hosts = map to_lower hosts }

-- What the code reads of an *http.Request; a header that is absent is empty.
pub record HttpRequest : Type 0 where
  pub method : Bytes
  pub host : Bytes
  pub path : Bytes
  pub origin : Bytes
  pub token : Bytes
  pub content_type : Bytes
  pub body : Bytes

abbrev pub known_host : Server → Bytes → Bool
known_host s h = is_one_of s.hosts (to_lower h)

-- strings.TrimPrefix, with the prefix first.
abbrev pub trim_prefix : Bytes → Bytes → Bytes
trim_prefix p s = if starts_with p s then drop (length p) s else s

abbrev pub foreign_origin : Server → HttpRequest → Bool
foreign_origin s r =
    not (bytes_eq r.origin []) && not (known_host s (trim_prefix (codes "http://") r.origin))

abbrev pub is_api : HttpRequest → Bool
is_api r = starts_with (codes "/api/") r.path

abbrev pub is_post : HttpRequest → Bool
is_post r = bytes_eq r.method (codes "POST")

-- The checks of ServeHTTP, with the status that refuses; `media_type` is mime.ParseMediaType.
unfoldable pub admit : (Bytes → Bytes) → Server → HttpRequest → Result ℕ (Unit {0})
admit media_type s r =
    refuse (not (known_host s r.host)) 421
    >> refuse (foreign_origin s r) 403
    >> refuse (is_api r && not (bytes_eq r.token s.token)) 401
    >> refuse
        (is_api r
          && is_post r
          && not (bytes_eq (media_type r.content_type) (codes "application/json")))
        415

-- The patterns of NewServer; a path value is the identifier it stands for.
pub data Route : Type 0 where
  files preflight_api start_api : Route
  status_api cancel_api : ℕ → Route
  report_api : ℕ → Bool → Route

-- The functions that are not the program's: the router, which may find no pattern, the decoders, and
-- the new identifier and the time at a request.
pub record Web (std : Std) : Type 0 where
  pub media_type : Bytes → Bytes
  pub route : HttpRequest → Option Route
  pub decode_run : Bytes → Option (RunConfig std.float)
  pub decode_request : Bytes → Option ApiRequest
  pub new_id : ℕ
  pub now : ℕ

abbrev pub started_status : Controller → Result Fault Controller → ℕ × Controller
started_status ctl (ok next) = (202, next)
started_status ctl (err busy) = (409, ctl)
started_status ctl (err other) = (400, ctl)

abbrev pub cancelled_status : Controller → Result Fault Controller → ℕ × Controller
cancelled_status ctl (ok next) = (204, next)
cancelled_status ctl (err why) = (404, ctl)

abbrev pub status_status : Result Fault Status → ℕ
status_status (ok st) = 200
status_status (err why) = 404

abbrev pub report_status : Result Fault Bytes → ℕ
report_status (ok b) = 200
report_status (err not_found) = 404
report_status (err other) = 409

abbrev pub preflight_status : Result Problem Request → ℕ
preflight_status (ok req) = 200
preflight_status (err why) = 400

module _ (std : Std) (web : Web std) where
  abbrev pub preflight_answer : Controller → Option ApiRequest → ℕ
  preflight_answer ctl none = 400
  preflight_answer ctl (some req) = preflight_status (validate_request std req ctl.limits)

  -- The handlers. A preflight sends its request and changes nothing; files are served as they are.
  unfoldable pub handle : Option Route → HttpRequest → Controller → ℕ × Controller
  handle none r ctl = (404, ctl)
  handle (some files) r ctl = (200, ctl)
  handle (some preflight_api) r ctl = (preflight_answer ctl (web.decode_request r.body), ctl)
  handle (some start_api) r ctl = elim (web.decode_run r.body) [
    | none ↦ (400, ctl)
    | some c ↦ started_status ctl (start std web.new_id web.now c ctl)
  ]
  handle (some (status_api id)) r ctl = (status_status (status id web.now ctl), ctl)
  handle (some (cancel_api id)) r ctl = cancelled_status ctl (cancel id ctl)
  handle (some (report_api id html)) r ctl = (report_status (report id html ctl), ctl)

  abbrev pub answered : Result ℕ (Unit {0}) → ℕ × Controller → Controller → ℕ × Controller
  answered (err code) after ctl = (code, ctl)
  answered (ok passed) after ctl = after

  unfoldable pub serve : Server → HttpRequest → Controller → ℕ × Controller
  serve s r ctl = answered (admit web.media_type s r) (handle (web.route r) r ctl) ctl
