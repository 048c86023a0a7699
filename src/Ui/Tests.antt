-- ===== src/Ui/Tests.antt =====
-- One form from its validation to the end of its run, and the theorems on the way.
use loadtool.Prelude.{
  ℕ, ◌≤◌, ◌≡◌, ◌≢◌, ◌⊎◌, refl, ap, subst, sym, List, [], ◌∷◌, ◌++◌, none, some, true, false,
  if◌then◌else◌, All, Bytes, codes, starts_with, count, get_elem?,
}
use loadtool.Prelude.Int.{pos}
use loadtool.Prelude.Float.{fixed}
use loadtool.Prelude.Result.{ok}
use loadtool.Netguard.{Net, Url, check_url, check_shape, check_host, any_local}
use loadtool.Ui.Redact.{
  redact, new_redactor, keep_secrets, insert_longest, replace_each, replace_from,
}
use loadtool.Ui.Config.{ApiRequest, RunConfig, Limits, Plan, Request, Std, valid_header_name}
use loadtool.Ui.Config.Build.{
  validate, validate_request, check_start, check_target, add_queries, add_headers, check_header,
  canonical_key, apply_auth, apply_basic, add_body, made_plan, bare_request, basic_request,
  with_body,
}
use loadtool.Ui.Config.Within.{Within, validate-Within}
use loadtool.Ui.Config.Clean.{Clean, OneLine, validate_request-Clean}
use loadtool.Ui.Controller.{
  Controller, Run, success, completed, cancelled, new_controller, new_run, start, start_plan,
  current, is_running, finish, cancel, cancel_run, get, change, warn,
}
use loadtool.Ui.Controller.View.{report}
use loadtool.Ui.Controller.Schedule.{
  Steps, stay, further, Reach, begun, after, starts, warns, cancels, ends, with_run,
}
use loadtool.Ui.Controller.Followed.{At}
use loadtool.Ui.Controller.Single.{under_way, latest, Reach-Single}
use loadtool.Ui.Controller.Ended.{Consistent, SameOutcome, Reach-Consistent, ended_stays}
use loadtool.Ui.Controller.Concealed.{Concealed, start-Concealed}
use loadtool.Ui.Controller.Shown.{report-Ended}
use loadtool.Ui.Server.{Server, Web, HttpRequest, start_api, new_server, serve, admit, handle}
use loadtool.Ui.Server.Trusted.{Trusted, serve-Trusted}

abbrev pub host : Bytes
host = codes "api.example.com"

abbrev pub url : Url
url = record {
  scheme = codes "https";
  user = false;
  host = host;
  path = codes "/v1";
  raw_query = [];
  fragment = [];
}

abbrev pub net : Net
net = record {
  parse = λ raw. some url;
  hostname = λ u. u.host;
  parse_addr = λ host. none;
  split_host_port = λ address. none;
}

abbrev pub std : Std
std = record {
  net = net;
  query_of = λ u. [];
  encode = λ q. [];
  url_text = λ u. u.scheme ++ codes "://" ++ u.host ++ u.path;
  query_escape = λ s. s;
  json_valid = λ s. true;
  base64 = λ s. codes "dTpodW50ZXIy";
  parse_duration = λ s. some (pos 30000000000);
  float = fixed;
  show_float = λ x. codes "1";
}

abbrev pub limits : Limits
limits = record {
  max_vus = pos 50;
  max_duration = pos 300000000000;
  allow_private = false;
  request_timeout = pos 10000000000;
}

abbrev pub api_request : ApiRequest
api_request = record {
  method = codes " post ";
  url = codes "https://api.example.com/v1";
  query = record { name = codes "q"; value = codes "1"; secret = false } ∷ [];
  headers = record { name = codes "x-api-key"; value = codes "s3cret"; secret = true } ∷ [];
  body = codes "{}";
  auth = record {
    type = codes "basic";
    token = [];
    username = codes "u";
    password = codes "hunter2";
  };
}

abbrev pub form : RunConfig fixed
form = record {
  request = api_request;
  vus = pos 2;
  duration = codes "30s";
  min_status = pos 0;
  max_status = pos 0;
  p95_ms = 0;
  max_error_pct = 0;
  authorized = true;
}

abbrev pub authenticated : Request
authenticated = basic_request std api_request.auth (
    bare_request std api_request url ([], [])
      ((codes "X-Api-Key", codes "s3cret" ∷ []) ∷ [], codes "s3cret" ∷ []))

abbrev pub request : Request
request = with_body std (codes "{}") authenticated

abbrev pub plan : Plan
plan = made_plan std form request (pos 30000000000)

request_accepted : validate_request std api_request limits ≡ ok request
unfolding validate_request check_start check_target check_url check_shape check_host any_local
    add_queries add_headers check_header canonical_key valid_header_name apply_auth apply_basic
    add_body
request_accepted = refl

accepted : validate std form limits ≡ ok plan
unfolding validate validate_request check_start check_target check_url check_shape check_host
    any_local add_queries add_headers check_header canonical_key valid_header_name apply_auth
    apply_basic add_body
accepted = refl

abbrev pub idle : Controller
idle = new_controller 0 0 0 false

abbrev pub busy : Controller
busy = with_run (new_run 7 100 plan) idle

start_ok : start std 7 100 form idle ≡ ok busy
unfolding start start_plan current new_controller validate validate_request check_start check_target
    check_url check_shape check_host any_local add_queries add_headers check_header canonical_key
    valid_header_name apply_auth apply_basic add_body
start_ok = refl

-- The runner warns with a secret, the user cancels, and the run ends with its reports.
abbrev pub asked : Controller
asked = change (change busy 0 (warn (codes "key s3cret"))) 0 cancel_run

abbrev pub report_text : Bytes
report_text = codes "u hunter2"

abbrev pub done : Controller
done = change asked 0 (finish 200 (success (some report_text) none))

cancel_ok : cancel 7 (change busy 0 (warn (codes "key s3cret"))) ≡ ok asked
unfolding cancel get current new_run new_controller warn
cancel_ok = refl

run_of : Controller → Run
run_of ctl = last_of (new_run 0 0 plan) ctl.runs
  where
    last_of : Run → List Run → Run
    last_of d [] = d
    last_of d (r ∷ rs) = last_of r rs

asked_run : get_elem? asked.runs 0 ≡ some (run_of asked)
unfolding run_of new_controller warn new_run
asked_run = refl

asked_on : is_running (run_of asked).state ≡ true
unfolding run_of new_controller warn new_run is_running
asked_on = refl

steps : Steps std busy done
steps =
    further (further (further stay (warns 0 (codes "key s3cret"))) (cancels 7 cancel_ok))
      (ends 0 200 (success (some report_text) none) (run_of asked) asked_run asked_on)

reached_idle : Reach std idle
reached_idle = begun 0 0 0 false

reached : Reach std done
reached =
    after
      (after
        (after (after reached_idle (starts 7 100 form start_ok)) (warns 0 (codes "key s3cret")))
        (cancels 7 cancel_ok))
      (ends 0 200 (success (some report_text) none) (run_of asked) asked_run asked_on)

-- The report without the password.
shown : report 7 false done ≡ ok (codes "u ***")
unfolding report current new_controller new_run warn finish redact new_redactor keep_secrets
    insert_longest replace_each replace_from is_running
shown = refl

done_run : get_elem? done.runs 0 ≡ some (run_of done)
unfolding run_of new_controller warn new_run finish
done_run = refl

done_off : is_running (run_of done).state ≡ false
unfolding run_of new_controller warn new_run finish is_running
done_off = refl

late_cancel : cancel 7 done ≡ ok (change done 0 cancel_run)
unfolding cancel get current new_run new_controller warn finish
late_cancel = refl

validate-Within_example : (true ≡ true) × Within limits plan
validate-Within_example = validate-Within std form limits plan accepted

base64_line : (s : Bytes) → OneLine (std.base64 s)
base64_line s = refl

validate_request-Clean_example : Clean request.header
validate_request-Clean_example =
    validate_request-Clean std base64_line api_request limits request request_accepted

Reach-Single_example : (count under_way done.runs ≤ 1) × (done.cur ≡ latest done.runs)
Reach-Single_example = Reach-Single std reached

Reach-Consistent_example : All Consistent done.runs
Reach-Consistent_example = Reach-Consistent std reached

start-Concealed_example : At (Concealed std form) done.runs 0
unfolding new_controller
start-Concealed_example = start-Concealed std 7 100 form idle busy done start_ok steps

ended_stays_example :
    At
      (SameOutcome (run_of done))
      (change (change done 0 cancel_run) 0 (warn (codes "late"))).runs
      0
ended_stays_example =
    ended_stays std done (change (change done 0 cancel_run) 0 (warn (codes "late"))) 0 (run_of done)
      done_run done_off (further (further stay (cancels 7 late_cancel)) (warns 0 (codes "late")))

report-Ended_example :
    (r : Run) × (current done ≡ some r)
    × (r.id ≡ 7)
    × ((r.state ≡ completed) ⊎ (r.state ≡ cancelled))
report-Ended_example = report-Ended std done 7 false (codes "u ***") reached shown

abbrev pub server : Server
server = new_server (codes "t0ken") (codes "LOCALHOST:7878" ∷ [])

abbrev pub web : Web std
web = record {
  media_type = λ s. s;
  route = λ r. if starts_with (codes "/api/") r.path then some start_api else none;
  decode_run = λ body. some form;
  decode_request = λ body. none;
  new_id = 7;
  now = 100;
}

abbrev pub start_request : HttpRequest
start_request = record {
  method = codes "POST";
  host = codes "localhost:7878";
  path = codes "/api/runs";
  origin = codes "http://localhost:7878";
  token = codes "t0ken";
  content_type = codes "application/json";
  body = [];
}

served : serve std web server start_request idle ≡ (202, busy)
unfolding serve admit handle new_server start start_plan current new_controller validate
    validate_request check_start check_target check_url check_shape check_host any_local add_queries
    add_headers check_header canonical_key valid_header_name apply_auth apply_basic add_body
served = refl

forged :
    (serve std web server (record start_request { origin = codes "http://evil.test" }) idle).0 ≡ 403
unfolding serve admit new_server
forged = refl

idle_is_not_busy : busy ≢ idle
unfolding new_controller
idle_is_not_busy h =
    let some_none : some 0 ≡ none = ap (λ (c : Controller). c.cur) h in absurd (cc some_none)

serve-Trusted_example : Trusted server start_request
serve-Trusted_example =
    serve-Trusted std web server start_request idle (λ h. refl)
      (subst (λ (x : ℕ × Controller). x.1 ≢ idle) (sym served) idle_is_not_busy)
