-- ===== src/Ui/Config/Within.antt =====
-- The limits of a validated run.
use loadtool.Prelude.{
  [], true, false, ◌||◌, not, ltb, ◌≤◌, ◌≡◌, refl, subst, arith, Bytes, codes, bytes_eq, length,
  trim_space, negated, sym, inl, inr, to_upper,
}
use loadtool.Prelude.Int.{ℤ, pos, ltb_ℤ, ◌≤ℤ◌}
use loadtool.Prelude.Result.{ok, ◌>>◌, refuse, >>=-eq-ok, guards-eq-ok}
use loadtool.Ui.Config.Passed.{Authenticated, Bodied, validate-eq-ok, validate_request-eq-ok}
use loadtool.Netguard.{Url}
use loadtool.Ui.Config.{
  bad_method, long_url, max_url_bytes, RunConfig, Limits, Plan, Request, Std, ApiRequest, Auth,
  methods, is_one_of, max_body_bytes,
}
use loadtool.Ui.Config.Build.{
  validate, validate_request, second, bare_request, check_target, as_problem, expected_status,
  bad_range, check_start,
}

abbrev pub Between : ℤ → ℤ → ℤ → Type 0
Between lo n hi = (lo ≤ℤ n) × (n ≤ℤ hi)

-- A request that can be sent: one of the five methods, and no body with GET or above 256 KB.
abbrev pub Sendable : Request → Type 0
Sendable req =
    (is_one_of methods req.method ≡ true)
    × (length req.body ≤ max_body_bytes)
    × ((bytes_eq req.method (codes "GET") ≡ true) → req.body ≡ [])

abbrev pub Within : Limits → Plan → Type 0
Within lim p =
    Sendable p.request
    × Between (pos 1) p.vus lim.max_vus
    × Between second p.duration lim.max_duration
    × Between (pos 100) p.min_status p.max_status
    × (p.max_status ≤ℤ pos 599)

outside : (lo n hi : ℤ) → (ltb_ℤ n lo || ltb_ℤ hi n) ≡ false → Between lo n hi
outside lo n hi h = ground arith

range_ok : (r : ℤ × ℤ) → bad_range r ≡ false → Between (pos 100) r.0 r.1 × (r.1 ≤ℤ pos 599)
range_ok (lo, hi) h = ground arith

module _ (std : Std) where
  add_body-Sendable :
      (body : Bytes) (req out : Request)
      → is_one_of methods req.method ≡ true
      → req.body ≡ []
      → Bodied std body req out
      → Sendable out
  add_body-Sendable body req out m b (inl same) =
      subst Sendable (sym same) (m, rw b (omega arith), λ get. b)
  add_body-Sendable body req out m b (inr (get, fits, same)) =
      subst Sendable (sym same) (m, fits, λ yes. absurd (cc (get, yes)))

  bare-Sendable :
      (a : Auth) (body : Bytes) (req out last : Request)
      → is_one_of methods req.method ≡ true
      → req.body ≡ []
      → Authenticated std a req out
      → Bodied std body out last
      → Sendable last
  bare-Sendable a body req out last m b (inl (x, same)) d =
      add_body-Sendable body out last (rw same m) (rw same b) d
  bare-Sendable a body req out last m b (inr (inl (x, y, same))) d =
      add_body-Sendable body out last (rw same m) (rw same b) d
  bare-Sendable a body req out last m b (inr (inr (x, y, same))) d =
      add_body-Sendable body out last (rw same m) (rw same b) d

  method_known :
      (r : ApiRequest) (lim : Limits) (u : Url)
      → check_start std r lim ≡ ok u
      → is_one_of methods (to_upper (trim_space r.method)) ≡ true
  unfolding check_start
  method_known r lim u h =
      let (v, first, rest) =
        >>=-eq-ok
          (refuse (not (is_one_of methods (to_upper (trim_space r.method)))) bad_method
            >> refuse (ltb max_url_bytes (length (trim_space r.url))) long_url
            >> as_problem std (check_target std lim.allow_private (trim_space r.url)))
          _ h in
      let (known, short, found) =
        guards-eq-ok (not (is_one_of methods (to_upper (trim_space r.method))))
          (ltb max_url_bytes (length (trim_space r.url))) bad_method long_url
          (as_problem std (check_target std lim.allow_private (trim_space r.url))) first in
      negated (is_one_of methods (to_upper (trim_space r.method))) known

  validate_request-Sendable :
      (r : ApiRequest) (lim : Limits) (req : Request)
      → validate_request std r lim ≡ ok req
      → Sendable req
  validate_request-Sendable r lim req h =
      let (u, queried, headed, out, started, asked, added, known, full) =
        validate_request-eq-ok std r lim req h in
      bare-Sendable r.auth (trim_space r.body) (bare_request std r u queried headed) out req
        (method_known r lim u started) refl known full

  -- A run that is validated was authorized by the user and keeps to the limits: from 1 to the
  -- largest number of VUs, from one second to the longest duration, and a range of statuses within
  -- 100 to 599. Its request has one of the five methods, a body of at most 256 KB, and none with GET.
  pub validate-Within :
      (c : RunConfig std.float) (lim : Limits) (p : Plan)
      → validate std c lim ≡ ok p
      → (c.authorized ≡ true) × Within lim p
  validate-Within c lim p h =
      let (req, d, made, allowed, vus, lasts, range, same) = validate-eq-ok std c lim p h in
      let (span, top) = range_ok (expected_status c.min_status c.max_status) range in
      subst (λ p. (c.authorized ≡ true) × Within lim p) same
        (
          negated c.authorized allowed,
          (
            validate_request-Sendable c.request lim req made,
            outside (pos 1) c.vus lim.max_vus vus,
            outside second d lim.max_duration lasts,
            span,
            top,
          ),
        )
