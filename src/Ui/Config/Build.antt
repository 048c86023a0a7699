-- ===== src/Ui/Config/Build.antt =====
-- The checks of the form, in the order in which the code makes them.
use loadtool.Prelude.{
  List, [], ◌∷◌, ◌++◌, Bool, true, false, ◌&&◌, ◌||◌, not, ltb, ◌==◌, if◌then◌else◌, Bytes, codes,
  bytes_eq, contains_any, length, trim_space, to_upper, upper, lower,
}
use loadtool.Prelude.Int.{ℤ, pos, ltb_ℤ, pos_part, neg_part}
use loadtool.Prelude.Result.{Result, ok, err, ◌>>=◌, ◌>>◌, refuse, some_or}
use loadtool.Netguard.{Url, Refusal, check_url, check_shape}
use loadtool.Ui.Config.{
  max_body_bytes, max_url_bytes, max_fields, Field, Auth, ApiRequest, RunConfig, Limits, Values,
  Request, Plan, Problem, bad_method, long_url, bad_destination, has_fragment, many_fields,
  unnamed_query, bad_header_name, reserved_header, broken_header, bad_token, bad_user,
  bad_auth_type, get_with_body, large_body, bad_json, not_authorized, bad_vus, bad_duration,
  duration_range, status_range, threshold_range, Std, methods, forbidden_headers, is_one_of,
  add_value, set_value, get_value, all_token, valid_header_name,
}

-- http.CanonicalHeaderKey: what is not a token stays; `start` is true where a letter is raised.
abbrev pub canonical_from : Bool → Bytes → Bytes
canonical_from start [] = []
canonical_from start (c ∷ s) = (if start then upper c else lower c) ∷ canonical_from (c == b'-') s

unfoldable pub canonical_key : Bytes → Bytes
canonical_key s = if all_token s then canonical_from true s else s

abbrev pub line_breaks : Bytes
line_breaks = 13 ∷ 10 ∷ []

module _ (std : Std) where
  -- checkURL
  unfoldable pub check_target : Bool → Bytes → Result Refusal Url
  check_target allow_private raw =
      if allow_private then check_shape std.net raw else check_url std.net raw

  abbrev pub as_problem : Result Refusal Url → Result Problem Url
  as_problem (err e) = err bad_destination
  as_problem (ok u) = ok u

  abbrev pub query_secrets : Field → List Bytes
  query_secrets f = if f.secret then f.value ∷ std.query_escape f.value ∷ [] else []

  -- The loop over the query parameters, with the query and the secrets so far.
  unfoldable pub add_queries :
      List Field → Values → List Bytes → Result Problem (Values × List Bytes)
  add_queries [] q secrets = ok (q, secrets)
  add_queries (f ∷ fs) q secrets =
      refuse (bytes_eq (trim_space f.name) []) unnamed_query
      >> add_queries fs (add_value f.name f.value q) (secrets ++ query_secrets f)

-- The checks of one header.
unfoldable pub check_header : Field → Result Problem (Unit {0})
check_header f =
    let name = trim_space f.name in
    refuse (not (valid_header_name name)) bad_header_name
    >> refuse (is_one_of forbidden_headers (canonical_key name)) reserved_header
    >> refuse (contains_any line_breaks f.value) broken_header

abbrev pub header_secrets : Field → List Bytes
header_secrets f = if f.secret then f.value ∷ [] else []

-- The loop over the headers.
unfoldable pub add_headers : List Field → Values → List Bytes → Result Problem (Values × List Bytes)
add_headers [] header secrets = ok (header, secrets)
add_headers (f ∷ fs) header secrets =
    check_header f
    >> add_headers fs (add_value (canonical_key (trim_space f.name)) f.value header)
        (secrets ++ header_secrets f)

abbrev pub set_header : Bytes → Bytes → List Bytes → Request → Request
set_header key value secrets out = record out {
  header = set_value key value out.header;
  secrets = out.secrets ++ secrets;
}

-- The expected status: 0 and 0 stand for 200 to 299.
abbrev pub expected_status : ℤ → ℤ → ℤ × ℤ
expected_status lo hi = if is_zero lo && is_zero hi then (pos 200, pos 299) else (lo, hi)
  where
    is_zero : ℤ → Bool
    is_zero n = pos_part n == 0 && neg_part n == 0

abbrev pub bad_range : ℤ × ℤ → Bool
bad_range (lo, hi) = ltb_ℤ lo (pos 100) || ltb_ℤ (pos 599) hi || ltb_ℤ hi lo

abbrev pub second : ℤ
second = pos 1000000000

abbrev pub bearer_request : Bytes → Request → Request
bearer_request tok out = set_header (codes "Authorization") (codes "Bearer " ++ tok) (tok ∷ []) out

-- What a bearer token, and the credentials of basic authentication, may not be.
abbrev pub is_bad_token : Bytes → Bool
is_bad_token tok = bytes_eq tok [] || contains_any (13 ∷ 10 ∷ b' ' ∷ []) tok

abbrev pub is_bad_user : Auth → Bool
is_bad_user a =
    bytes_eq a.username []
    || contains_any (b':' ∷ line_breaks) a.username
    || contains_any line_breaks a.password

module _ (std : Std) where
  abbrev pub credentials : Auth → Bytes
  credentials a = std.base64 (a.username ++ codes ":" ++ a.password)

  abbrev pub basic_request : Auth → Request → Request
  basic_request a out =
      set_header (codes "Authorization") (codes "Basic " ++ credentials a)
        (a.password ∷ credentials a ∷ []) out

  unfoldable pub apply_bearer : Bytes → Request → Result Problem Request
  apply_bearer tok out = refuse (is_bad_token tok) bad_token >> ok (bearer_request tok out)

  unfoldable pub apply_basic : Auth → Request → Result Problem Request
  apply_basic a out = refuse (is_bad_user a) bad_user >> ok (basic_request a out)

  unfoldable pub apply_auth : Auth → Request → Result Problem Request
  apply_auth a out =
      if bytes_eq a.type [] || bytes_eq a.type (codes "none")
      then ok out
      else if bytes_eq a.type (codes "bearer")
      then apply_bearer (trim_space a.token) out
      else if bytes_eq a.type (codes "basic")
      then apply_basic a out
      else err bad_auth_type

  abbrev pub default_type : Values → Values
  default_type header =
      if bytes_eq (get_value (codes "Content-Type") header) []
      then set_value (codes "Content-Type") (codes "application/json") header
      else header

  abbrev pub with_body : Bytes → Request → Request
  with_body body out = record out { body = body; header = default_type out.header }

  -- The body of validateRequest's last `if`.
  unfoldable pub add_body : Bytes → Request → Result Problem Request
  add_body body out =
      if bytes_eq body []
      then ok out
      else refuse (bytes_eq out.method (codes "GET")) get_with_body
        >> refuse (ltb max_body_bytes (length body)) large_body
        >> refuse (not (std.json_valid body)) bad_json
        >> ok (with_body body out)

  -- The first part of validateRequest: the method, and the URL with its query.
  unfoldable pub check_start : ApiRequest → Limits → Result Problem Url
  check_start r lim =
      let raw = trim_space r.url in
      refuse (not (is_one_of methods (to_upper (trim_space r.method)))) bad_method
      >> refuse (ltb max_url_bytes (length raw)) long_url
      >> as_problem std (check_target std lim.allow_private raw)
      >>= λ u.
          refuse (not (bytes_eq u.fragment [])) has_fragment
          >> refuse (ltb max_fields (length r.query) || ltb max_fields (length r.headers))
              many_fields
          >> ok u

  abbrev pub label_of : Bytes → Url → Bytes
  label_of method u =
      method ++ codes " " ++ std.url_text (record u { user = false; raw_query = []; fragment = [] })

  -- The request before its authentication and its body.
  abbrev pub bare_request : ApiRequest → Url → Values × List Bytes → Values × List Bytes → Request
  bare_request r u queried headed = record {
    method = to_upper (trim_space r.method);
    url = std.url_text (record u { raw_query = std.encode queried.0 });
    body = [];
    header = headed.0;
    label = label_of (to_upper (trim_space r.method)) u;
    secrets = headed.1;
  }

  unfoldable pub validate_request : ApiRequest → Limits → Result Problem Request
  validate_request r lim = check_start r lim >>= λ u.
      add_queries std r.query (std.query_of u) [] >>= λ queried.
      add_headers r.headers [] queried.1 >>= λ headed.
      apply_auth r.auth (bare_request r u queried headed) >>= λ out.
      add_body (trim_space r.body) out

  abbrev pub zero_float : std.float.F
  zero_float = std.float.of_nat 0

  abbrev pub bad_thresholds : RunConfig std.float → Bool
  bad_thresholds c =
      std.float.flt c.p95_ms zero_float
      || std.float.flt c.max_error_pct zero_float
      || std.float.flt (std.float.of_nat 100) c.max_error_pct

  abbrev pub thresholds_of : RunConfig std.float → List (Bytes × List Bytes)
  thresholds_of c =
      (if std.float.flt zero_float c.p95_ms
        then (codes "http_req_duration", (codes "p(95)<" ++ std.show_float c.p95_ms) ∷ []) ∷ []
        else [])
      ++ (if std.float.flt zero_float c.max_error_pct
          then (
            codes "http_req_failed",
            (codes "rate<"
                  ++ std.show_float (std.float.fdiv c.max_error_pct (std.float.of_nat 100)))
                ∷ [],
          )
            ∷ []
          else [])

  abbrev pub made_plan : RunConfig std.float → Request → ℤ → Plan
  made_plan c req duration = record {
    request = req;
    vus = c.vus;
    duration = duration;
    min_status = (expected_status c.min_status c.max_status).0;
    max_status = (expected_status c.min_status c.max_status).1;
    thresholds = thresholds_of c;
  }

  unfoldable pub validate : RunConfig std.float → Limits → Result Problem Plan
  validate c lim = validate_request c.request lim >>= λ req.
      refuse (not c.authorized) not_authorized
      >> refuse (ltb_ℤ c.vus (pos 1) || ltb_ℤ lim.max_vus c.vus) bad_vus
      >> some_or bad_duration (std.parse_duration (trim_space c.duration))
      >>= λ duration.
          refuse (ltb_ℤ duration second || ltb_ℤ lim.max_duration duration) duration_range
          >> refuse (bad_range (expected_status c.min_status c.max_status)) status_range
          >> refuse (bad_thresholds c) threshold_range
          >> ok (made_plan c req duration)
