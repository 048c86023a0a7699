-- ===== src/Ui/Config/Clean.antt =====
-- The headers of a request that is accepted.
use loadtool.Prelude.{
  List, [], ◌∷◌, ◌++◌, Bool, false, not, ◌≡◌, refl, inl, inr, subst, Bool-cases, or_false, Bytes,
  codes, bytes_eq, bytes_eq_iff, is_any, contains_any, trim_space, arith, All, All-snoc,
}
use loadtool.Prelude.Result.{ok, ◌>>◌, refuse, ok_inj, >>=-eq-ok}
use loadtool.Ui.Config.{
  Request, Std, ApiRequest, Auth, Limits, Values, Field, forbidden_headers, is_one_of, add_value,
  set_value, get_value, valid_header_name, bad_header_name, reserved_header, broken_header,
}
use loadtool.Ui.Config.Build.{
  credentials, add_headers, check_header, canonical_key, line_breaks, validate_request,
  default_type,
}
use loadtool.Ui.Config.Passed.{Authenticated, Bodied, validate_request-eq-ok}

-- A value that cannot end its line.
abbrev pub OneLine : Bytes → Type 0
OneLine v = contains_any line_breaks v ≡ false

-- No key is one that LoadTool sets itself, and no value can break out of its header.
abbrev pub Clean : Values → Type 0
Clean [] = Unit
Clean ((k, vs) ∷ m) = (is_one_of forbidden_headers k ≡ false) × All OneLine vs × Clean m

OneLine-append : (s t : Bytes) → OneLine s → OneLine t → OneLine (s ++ t)
OneLine-append [] t f g = g
OneLine-append (c ∷ s) t f g =
    let (one, rest) = or_false (is_any line_breaks c) (contains_any line_breaks s) f in
    let ih = OneLine-append s t rest g in rw (one, ih)

add_value-Clean :
    (key value : Bytes) (m : Values)
    → is_one_of forbidden_headers key ≡ false
    → OneLine value
    → Clean m
    → Clean (add_value key value m)
add_value-Clean key value [] k v h = (k, (v, tt), tt)
add_value-Clean key value ((j, vs) ∷ m) k v (free, lines, h) =
    let ih = add_value-Clean key value m k v h in
    elim (Bool-cases (bytes_eq key j)) [
      | inl e ↦ rw e (free, All-snoc OneLine vs value lines v, h)
      | inr e ↦ rw e (free, lines, ih)
    ]

set_value-Clean :
    (key value : Bytes) (m : Values)
    → is_one_of forbidden_headers key ≡ false
    → OneLine value
    → Clean m
    → Clean (set_value key value m)
set_value-Clean key value [] k v h = (k, (v, tt), tt)
set_value-Clean key value ((j, vs) ∷ m) k v (free, lines, h) =
    let ih = set_value-Clean key value m k v h in
    elim (Bool-cases (bytes_eq key j)) [
      | inl e ↦ rw e (
        subst (λ x. is_one_of forbidden_headers x ≡ false) ((bytes_eq_iff key j).0 e) k,
        (v, tt),
        h,
      )
      | inr e ↦ rw e (free, lines, ih)
    ]

check_header-eq-ok :
    (f : Field)
    → check_header f ≡ ok tt
    → (is_one_of forbidden_headers (canonical_key (trim_space f.name)) ≡ false) × OneLine f.value
unfolding check_header
check_header-eq-ok f h =
    let name = trim_space f.name in
    passed (not (valid_header_name name)) (is_one_of forbidden_headers (canonical_key name))
      (contains_any line_breaks f.value) h
  where
    passed :
        (x y z : Bool)
        → (refuse x bad_header_name >> refuse y reserved_header >> refuse z broken_header) ≡ ok tt
        → (y ≡ false) × (z ≡ false)
    passed x y z h = ground arith

add_headers-Clean :
    (fs : List Field) (header : Values) (secrets : List Bytes) (done : Values × List Bytes)
    → Clean header
    → add_headers fs header secrets ≡ ok done
    → Clean done.0
unfolding add_headers
add_headers-Clean [] header secrets done c h =
    subst (λ (d : Values × List Bytes). Clean d.0) (ok_inj h) c
add_headers-Clean (f ∷ fs) header secrets done c h =
    let (checked, passed, rest) = >>=-eq-ok (check_header f) _ h in
    let (free, line) = check_header-eq-ok f passed in
    add_headers-Clean fs _ _ done (add_value-Clean _ _ header free line c) rest

token_line : (tok : Bytes) → contains_any (13 ∷ 10 ∷ b' ' ∷ []) tok ≡ false → OneLine tok
token_line [] h = refl
token_line (c ∷ s) h = let ih = token_line s in ground arith

default_type-Clean : (std : Std) (m : Values) → Clean m → Clean (default_type std m)
default_type-Clean std m h = elim (Bool-cases (bytes_eq (get_value (codes "Content-Type") m) [])) [
  | inl e ↦ rw e (set_value-Clean (codes "Content-Type") (codes "application/json") m refl refl h)
  | inr e ↦ rw e h
]

module _ (std : Std) (base64_line : (s : Bytes) → OneLine (std.base64 s)) where
  Authenticated-Clean :
      (a : Auth) (req out : Request)
      → Clean req.header
      → Authenticated std a req out
      → Clean out.header
  Authenticated-Clean a req out h (inl (x, same)) = rw same h
  Authenticated-Clean a req out h (inr (inl (x, good, same))) =
      let tok = trim_space a.token in
      let (some_token, no_break) =
        or_false (bytes_eq tok []) (contains_any (13 ∷ 10 ∷ b' ' ∷ []) tok) good in
      rw same (
        set_value-Clean (codes "Authorization") (codes "Bearer " ++ tok) req.header refl
          (OneLine-append (codes "Bearer ") tok refl (token_line tok no_break)) h)
  Authenticated-Clean a req out h (inr (inr (x, good, same))) = rw same (
      set_value-Clean (codes "Authorization") (codes "Basic " ++ credentials std a) req.header refl
        (OneLine-append (codes "Basic ") (credentials std a) refl
          (base64_line (a.username ++ codes ":" ++ a.password)))
        h)

  Bodied-Clean :
      (body : Bytes) (req out : Request)
      → Clean req.header
      → Bodied std body req out
      → Clean out.header
  Bodied-Clean body req out h (inl same) = rw same h
  Bodied-Clean body req out h (inr (get, fits, same)) =
      rw same (default_type-Clean std req.header h)

  -- Every header of a request that is accepted can be sent as it stands: its name is none of those
  -- that the HTTP client sets (Host, Content-Length, Connection and so on), and no value contains a
  -- line break, the Authorization header included. Base64 contains none.
  pub validate_request-Clean :
      (r : ApiRequest) (lim : Limits) (req : Request)
      → validate_request std r lim ≡ ok req
      → Clean req.header
  validate_request-Clean r lim req h =
      let (u, queried, headed, out, started, asked, added, known, full) =
        validate_request-eq-ok std r lim req h in
      Bodied-Clean (trim_space r.body) out req
        (Authenticated-Clean r.auth _ out (add_headers-Clean r.headers [] queried.1 headed tt added)
          known)
        full
