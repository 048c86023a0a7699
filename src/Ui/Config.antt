-- ===== src/Ui/Config.antt =====
-- The form of the page and its validation (internal/ui/config.go). Texts are their bytes, and their
-- spaces and letters ASCII. What net/url, encoding/json, encoding/base64, time and fmt do with a text
-- is the record `Std`, with no laws assumed; an http.Header or url.Values is the list of its keys
-- with their values, where the program has a map.
pub mod Build
pub mod Passed
pub mod Within
pub mod Clean
pub mod Secret
use loadtool.Prelude.{
  ℕ, ◌*◌, ◌^◌, List, [], ◌∷◌, ◌++◌, Option, none, some, Bool, true, false, ◌&&◌, ◌||◌, not, leb,
  ltb, ◌==◌, if◌then◌else◌, Bytes, codes, bytes_eq, is_any, length,
}
use loadtool.Prelude.Int.{ℤ, pos, ltb_ℤ}
use loadtool.Prelude.Float.{Float}
use loadtool.Netguard.{Net, Url}

abbrev pub max_body_bytes : ℕ
max_body_bytes = 256 * 2 ^ 10

abbrev pub max_url_bytes : ℕ
max_url_bytes = 8 * 2 ^ 10

abbrev pub max_fields : ℕ
max_fields = 50

pub record Field : Type 0 where
  pub name : Bytes
  pub value : Bytes
  pub secret : Bool

pub record Auth : Type 0 where
  pub type : Bytes
  pub token : Bytes
  pub username : Bytes
  pub password : Bytes

pub record ApiRequest : Type 0 where
  pub method : Bytes
  pub url : Bytes
  pub query : List Field
  pub headers : List Field
  pub body : Bytes
  pub auth : Auth

pub record RunConfig (fl : Float) : Type 0 where
  pub request : ApiRequest
  pub vus : ℤ
  pub duration : Bytes
  pub min_status : ℤ
  pub max_status : ℤ
  pub p95_ms : fl.F
  pub max_error_pct : fl.F
  pub authorized : Bool

pub record Limits : Type 0 where
  pub max_vus : ℤ
  pub max_duration : ℤ
  pub allow_private : Bool
  pub request_timeout : ℤ

abbrev pub Values : Type 0
Values = List (Bytes × List Bytes)

pub record Request : Type 0 where
  pub method : Bytes
  pub url : Bytes
  pub body : Bytes
  pub header : Values
  pub label : Bytes
  pub secrets : List Bytes

pub record Plan : Type 0 where
  pub request : Request
  pub vus : ℤ
  pub duration : ℤ
  pub min_status : ℤ
  pub max_status : ℤ
  pub thresholds : List (Bytes × List Bytes)

-- The messages, by what they refuse.
pub data Problem : Type 0 where
  bad_method long_url bad_destination has_fragment many_fields unnamed_query bad_header_name :
      Problem
  reserved_header broken_header bad_token bad_user bad_auth_type get_with_body large_body : Problem
  bad_json not_authorized bad_vus bad_duration duration_range status_range threshold_range : Problem

-- The library functions the code calls.
pub record Std : Type 1 where
  pub net : Net
  -- u.Query(), q.Encode() and u.String()
  pub query_of : Url → Values
  pub encode : Values → Bytes
  pub url_text : Url → Bytes
  pub query_escape : Bytes → Bytes
  pub json_valid : Bytes → Bool
  pub base64 : Bytes → Bytes
  -- time.ParseDuration, in nanoseconds
  pub parse_duration : Bytes → Option ℤ
  pub float : Float
  -- %g, and the quotient by 100 that it prints
  pub show_float : float.F → Bytes

abbrev pub methods : List Bytes
methods = codes "GET" ∷ codes "POST" ∷ codes "PUT" ∷ codes "PATCH" ∷ codes "DELETE" ∷ []

abbrev pub forbidden_headers : List Bytes
forbidden_headers =
    codes "Host"
    ∷ codes "Content-Length"
    ∷ codes "Transfer-Encoding"
    ∷ codes "Connection"
    ∷ codes "Upgrade"
    ∷ codes "Te"
    ∷ codes "Trailer"
    ∷ codes "Proxy-Authorization"
    ∷ codes "Proxy-Connection"
    ∷ []

abbrev pub is_one_of : List Bytes → Bytes → Bool
is_one_of [] s = false
is_one_of (t ∷ ts) s = bytes_eq s t || is_one_of ts s

-- Values.Add and Values.Set, with a key as it is stored.
abbrev pub add_value : Bytes → Bytes → Values → Values
add_value key value [] = (key, value ∷ []) ∷ []
add_value key value ((k, vs) ∷ m) =
    let rest = add_value key value m in
    if bytes_eq key k then (k, vs ++ (value ∷ [])) ∷ m else (k, vs) ∷ rest

abbrev pub set_value : Bytes → Bytes → Values → Values
set_value key value [] = (key, value ∷ []) ∷ []
set_value key value ((k, vs) ∷ m) =
    let rest = set_value key value m in
    if bytes_eq key k then (k, value ∷ []) ∷ m else (k, vs) ∷ rest

-- Values.Get: the first value, or nothing.
abbrev pub first_or_empty : List Bytes → Bytes
first_or_empty [] = []
first_or_empty (v ∷ vs) = v

abbrev pub get_value : Bytes → Values → Bytes
get_value key [] = []
get_value key ((k, vs) ∷ m) = if bytes_eq key k then first_or_empty vs else get_value key m

abbrev pub quoted : Bytes
quoted = codes "\"(),/:;<=>?@[\\]{}"

abbrev pub all_token : Bytes → Bool
all_token [] = true
all_token (c ∷ s) = not (ltb 0x7e c || leb c b' ' || is_any quoted c) && all_token s

unfoldable pub valid_header_name : Bytes → Bool
valid_header_name [] = false
valid_header_name (c ∷ s) = all_token (c ∷ s)
