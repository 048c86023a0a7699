-- ===== src/Ui/Config/Passed.antt =====
-- What a request that is accepted has passed, call by call.
use loadtool.Prelude.{
  List, [], true, false, ◌≤◌, ◌||◌, not, ltb, ◌≡◌, ◌⊎◌, inl, inr, Bool-cases, Bytes, codes,
  bytes_eq, length, trim_space, arith,
}
use loadtool.Prelude.Result.{
  Result, ok, err, ◌>>◌, refuse, ok_inj, some_or, >>=-eq-ok, guard-eq-ok, guards-eq-ok,
  three_guards-eq-ok,
}
use loadtool.Netguard.{Url}
use loadtool.Prelude.Int.{ℤ, pos, ltb_ℤ}
use loadtool.Ui.Config.{
  RunConfig, Plan, not_authorized, bad_vus, bad_duration, Request, Problem, Std, ApiRequest, Auth,
  Limits, Values, max_body_bytes, get_with_body, large_body, bad_json, bad_token, bad_user,
  bad_auth_type,
}
use loadtool.Ui.Config.Build.{
  apply_auth, apply_bearer, apply_basic, is_bad_token, is_bad_user, bearer_request, basic_request,
  add_body, with_body, check_start, add_queries, add_headers, bare_request, validate_request,
  validate, second, expected_status, bad_range, bad_thresholds, made_plan,
}

module _ (std : Std) where
  -- No authentication, a bearer token, or a user with a password.
  abbrev pub Authenticated : Auth → Request → Request → Type 0
  Authenticated a req out =
      (((bytes_eq a.type [] || bytes_eq a.type (codes "none")) ≡ true) × (out ≡ req))
      ⊎ ((bytes_eq a.type (codes "bearer") ≡ true)
          × (is_bad_token (trim_space a.token) ≡ false)
          × (out ≡ bearer_request (trim_space a.token) req))
      ⊎ ((bytes_eq a.type (codes "basic") ≡ true)
          × (is_bad_user a ≡ false)
          × (out ≡ basic_request std a req))

  pub apply_auth-Authenticated :
      (a : Auth) (req out : Request) → apply_auth std a req ≡ ok out → Authenticated a req out
  unfolding apply_auth apply_bearer apply_basic
  apply_auth-Authenticated a req out h =
      elim (Bool-cases (bytes_eq a.type [] || bytes_eq a.type (codes "none"))) [
        | inl x ↦ inl (x, skipped (rw x at h))
        | inr x ↦ elim (Bool-cases (bytes_eq a.type (codes "bearer"))) [
          | inl y ↦ inr (inl (with_token y (rw (x, y) at h)))
          | inr y ↦ elim (Bool-cases (bytes_eq a.type (codes "basic"))) [
            | inl z ↦ inr (inr (with_user z (rw (x, y, z) at h)))
            | inr z ↦ absurd (unknown (rw (x, y, z) at h))
          ]
        ]
      ]
    where
      skipped : ◌≡◌ {A = Result Problem Request} (ok req) (ok out) → out ≡ req
      skipped h = cc h

      unknown : ◌≡◌ {A = Result Problem Request} (err bad_auth_type) (ok out) → ⊥
      unknown h = cc h

      with_token :
          bytes_eq a.type (codes "bearer") ≡ true
          → refuse (is_bad_token (trim_space a.token)) bad_token
              >> ok (bearer_request (trim_space a.token) req)
            ≡ ok out
          → (bytes_eq a.type (codes "bearer") ≡ true)
            × (is_bad_token (trim_space a.token) ≡ false)
            × (out ≡ bearer_request (trim_space a.token) req)
      with_token y h =
          let (good, same) =
            guard-eq-ok (is_bad_token (trim_space a.token)) bad_token
              (ok (bearer_request (trim_space a.token) req)) h in
          (y, good, cc same)

      with_user :
          bytes_eq a.type (codes "basic") ≡ true
          → refuse (is_bad_user a) bad_user >> ok (basic_request std a req) ≡ ok out
          → (bytes_eq a.type (codes "basic") ≡ true)
            × (is_bad_user a ≡ false)
            × (out ≡ basic_request std a req)
      with_user z h =
          let (good, same) =
            guard-eq-ok (is_bad_user a) bad_user (ok (basic_request std a req)) h in
          (z, good, cc same)

  -- No body, or one that fits.
  abbrev pub Bodied : Bytes → Request → Request → Type 0
  Bodied body req out =
      (out ≡ req)
      ⊎ ((bytes_eq req.method (codes "GET") ≡ false)
          × (length body ≤ max_body_bytes)
          × (out ≡ with_body std body req))

  pub add_body-Bodied :
      (body : Bytes) (req out : Request) → add_body std body req ≡ ok out → Bodied body req out
  unfolding add_body
  add_body-Bodied body req out h = elim (Bool-cases (bytes_eq body [])) [
    | inl e ↦ inl (empty (rw e at h))
    | inr e ↦ inr (full (rw e at h))
  ]
    where
      empty : ◌≡◌ {A = Result Problem Request} (ok req) (ok out) → out ≡ req
      empty h = cc h

      full :
          (refuse (bytes_eq req.method (codes "GET")) get_with_body
              >> refuse (ltb max_body_bytes (length body)) large_body
              >> refuse (not (std.json_valid body)) bad_json
              >> ok (with_body std body req))
            ≡ ok out
          → (bytes_eq req.method (codes "GET") ≡ false)
            × (length body ≤ max_body_bytes)
            × (out ≡ with_body std body req)
      full h =
          let (get, large, valid, same) =
            three_guards-eq-ok (bytes_eq req.method (codes "GET"))
              (ltb max_body_bytes (length body)) (not (std.json_valid body)) _ _ _
              (ok (with_body std body req)) h in
          (get, ground arith, cc same)

  -- The calls of validateRequest and their results.
  pub validate_request-eq-ok :
      (r : ApiRequest) (lim : Limits) (req : Request)
      → validate_request std r lim ≡ ok req
      → (u : Url) × (queried : Values × List Bytes) × (headed : Values × List Bytes)
        × (out : Request) × (check_start std r lim ≡ ok u)
        × (add_queries std r.query (std.query_of u) [] ≡ ok queried)
        × (add_headers r.headers [] queried.1 ≡ ok headed)
        × Authenticated r.auth (bare_request std r u queried headed) out
        × Bodied (trim_space r.body) out req
  unfolding validate_request
  validate_request-eq-ok r lim req h =
      let (u, started, h1) = >>=-eq-ok (check_start std r lim) _ h in
      let (queried, asked, h2) = >>=-eq-ok (add_queries std r.query (std.query_of u) []) _ h1 in
      let (headed, added, h3) = >>=-eq-ok (add_headers r.headers [] queried.1) _ h2 in
      let (out, known, h4) =
        >>=-eq-ok (apply_auth std r.auth (bare_request std r u queried headed)) _ h3 in
      (
        u,
        queried,
        headed,
        out,
        started,
        asked,
        added,
        apply_auth-Authenticated _ _ _ known,
        add_body-Bodied _ _ _ h4,
      )

  -- The checks of a run, and its plan.
  pub validate-eq-ok :
      (c : RunConfig std.float) (lim : Limits) (p : Plan)
      → validate std c lim ≡ ok p
      → (req : Request) × (d : ℤ) × (validate_request std c.request lim ≡ ok req)
        × (not c.authorized ≡ false)
        × ((ltb_ℤ c.vus (pos 1) || ltb_ℤ lim.max_vus c.vus) ≡ false)
        × ((ltb_ℤ d second || ltb_ℤ lim.max_duration d) ≡ false)
        × (bad_range (expected_status c.min_status c.max_status) ≡ false)
        × (made_plan std c req d ≡ p)
  unfolding validate
  validate-eq-ok c lim p h =
      let status = expected_status c.min_status c.max_status in
      let bad_number = ltb_ℤ c.vus (pos 1) || ltb_ℤ lim.max_vus c.vus in
      let timed_call = some_or bad_duration (std.parse_duration (trim_space c.duration)) in
      let (req, made, h1) = >>=-eq-ok (validate_request std c.request lim) _ h in
      let (d, timed, h2) =
        >>=-eq-ok
          (refuse (not c.authorized) not_authorized >> refuse bad_number bad_vus >> timed_call) _
          h1 in
      let (allowed, vus, parsed) =
        guards-eq-ok (not c.authorized) bad_number _ _ timed_call timed in
      let (lasts, range, limits, same) =
        three_guards-eq-ok (ltb_ℤ d second || ltb_ℤ lim.max_duration d) (bad_range status)
          (bad_thresholds std c) _ _ _ (ok (made_plan std c req d)) h2 in
      (req, d, made, allowed, vus, lasts, range, ok_inj same)
