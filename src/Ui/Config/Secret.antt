-- ===== src/Ui/Config/Secret.antt =====
-- The secrets of a form.
use loadtool.Prelude.{
  List, [], ◌∷◌, ◌++◌, Bool, true, false, ◌==◌, ◌≤◌, ◌≡◌, refl, ◌⊎◌, inl, inr, subst, Bytes, codes,
  bytes_eq, length, trim_space, All,
}
use loadtool.Prelude.Result.{ok, refuse, ok_inj, >>=-eq-ok}
use loadtool.Netguard.{Url}
use loadtool.Ui.Redact.{redact, new_redactor, min_secret}
use loadtool.Ui.Redact.Masked.{Among, Free, redact-Free}
use loadtool.Ui.Config.{Request, Std, ApiRequest, Auth, Limits, Values, Field, unnamed_query}
use loadtool.Ui.Config.Build.{
  add_headers, add_queries, query_secrets, header_secrets, check_header, bare_request,
  validate_request,
}
use loadtool.Ui.Config.Passed.{Authenticated, Bodied, validate_request-eq-ok}

-- The value of a field that is marked as secret.
abbrev pub Marked : Bytes → List Field → Type 0
Marked w [] = ⊥
Marked w (f ∷ fs) = ((f.secret ≡ true) × (w ≡ f.value)) ⊎ Marked w fs

-- What a form keeps secret.
pub data Hidden (r : ApiRequest) (w : Bytes) : Type 0 where
  in_query : Marked w r.query → Hidden r w
  in_header : Marked w r.headers → Hidden r w
  is_token : r.auth.type ≡ codes "bearer" → trim_space r.auth.token ≡ w → Hidden r w
  is_password : r.auth.type ≡ codes "basic" → r.auth.password ≡ w → Hidden r w

Among-left : (w : Bytes) (xs ys : List Bytes) → Among w xs → Among w (xs ++ ys)
Among-left w [] ys h = absurd h
Among-left w (x ∷ xs) ys (inl p) = inl p
Among-left w (x ∷ xs) ys (inr p) = inr (Among-left w xs ys p)

Among-right : (w : Bytes) (xs ys : List Bytes) → Among w ys → Among w (xs ++ ys)
Among-right w [] ys h = h
Among-right w (x ∷ xs) ys h = inr (Among-right w xs ys h)

add_headers-Among :
    (w : Bytes) (fs : List Field) (header : Values) (secrets : List Bytes)
    (done : Values × List Bytes)
    → add_headers fs header secrets ≡ ok done
    → Among w secrets ⊎ Marked w fs
    → Among w done.1
unfolding add_headers
add_headers-Among w [] header secrets done h (inl p) =
    subst (λ (d : Values × List Bytes). Among w d.1) (ok_inj h) p
add_headers-Among w [] header secrets done h (inr p) = absurd p
add_headers-Among w (f ∷ fs) header secrets done h p =
    let (checked, passed, rest) = >>=-eq-ok (check_header f) _ h in
    add_headers-Among w fs _ _ done rest (shift p)
  where
    shift :
        Among w secrets ⊎ Marked w (f ∷ fs) → Among w (secrets ++ header_secrets f) ⊎ Marked w fs
    shift (inl p) = inl (Among-left w secrets _ p)
    shift (inr (inl (s, same))) = inl (Among-right w secrets _ (rw s (inl same)))
    shift (inr (inr p)) = inr p

module _ (std : Std) where
  add_queries-Among :
      (w : Bytes) (fs : List Field) (q : Values) (secrets : List Bytes) (done : Values × List Bytes)
      → add_queries std fs q secrets ≡ ok done
      → Among w secrets ⊎ Marked w fs
      → Among w done.1
  unfolding add_queries
  add_queries-Among w [] q secrets done h (inl p) =
      subst (λ (d : Values × List Bytes). Among w d.1) (ok_inj h) p
  add_queries-Among w [] q secrets done h (inr p) = absurd p
  add_queries-Among w (f ∷ fs) q secrets done h p =
      let (checked, passed, rest) =
        >>=-eq-ok (refuse (bytes_eq (trim_space f.name) []) unnamed_query) _ h in
      add_queries-Among w fs _ _ done rest (shift p)
    where
      shift :
          Among w secrets ⊎ Marked w (f ∷ fs)
          → Among w (secrets ++ query_secrets std f) ⊎ Marked w fs
      shift (inl p) = inl (Among-left w secrets _ p)
      shift (inr (inl (s, same))) = inl (Among-right w secrets _ (rw s (inl same)))
      shift (inr (inr p)) = inr p

  Authenticated-Among :
      (w : Bytes) (a : Auth) (req out : Request)
      → Authenticated std a req out
      → Among w req.secrets
      → Among w out.secrets
  Authenticated-Among w a req out (inl (x, same)) h = rw same h
  Authenticated-Among w a req out (inr (inl (x, good, same))) h =
      rw same (Among-left w req.secrets _ h)
  Authenticated-Among w a req out (inr (inr (x, good, same))) h =
      rw same (Among-left w req.secrets _ h)

  token-Among :
      (a : Auth) (req out : Request)
      → a.type ≡ codes "bearer"
      → Authenticated std a req out
      → Among (trim_space a.token) out.secrets
  token-Among a req out t (inl (x, same)) =
      (let no : ◌≡◌ {A = Bool} false true = rw t at x in absurd (cc no))
  token-Among a req out t (inr (inl (x, good, same))) =
      rw same (Among-right _ req.secrets _ (inl refl))
  token-Among a req out t (inr (inr (x, good, same))) =
      (let no : ◌≡◌ {A = Bool} false true = rw t at x in absurd (cc no))

  password-Among :
      (a : Auth) (req out : Request)
      → a.type ≡ codes "basic"
      → Authenticated std a req out
      → Among a.password out.secrets
  password-Among a req out t (inl (x, same)) =
      (let no : ◌≡◌ {A = Bool} false true = rw t at x in absurd (cc no))
  password-Among a req out t (inr (inl (x, good, same))) =
      (let no : ◌≡◌ {A = Bool} false true = rw t at x in absurd (cc no))
  password-Among a req out t (inr (inr (x, good, same))) =
      rw same (Among-right _ req.secrets _ (inl refl))

  Bodied-Among :
      (w : Bytes) (body : Bytes) (req out : Request)
      → Bodied std body req out
      → Among w req.secrets
      → Among w out.secrets
  Bodied-Among w body req out (inl same) h = rw same h
  Bodied-Among w body req out (inr (get, fits, same)) h = rw same h

  -- Where each of them is collected.
  validate_request-Among :
      (r : ApiRequest) (lim : Limits) (req : Request) {w : Bytes}
      → validate_request std r lim ≡ ok req
      → Hidden r w
      → Among w req.secrets
  validate_request-Among r lim req {w} h hidden =
      let (u, queried, headed, out, started, asked, added, known, full) =
        validate_request-eq-ok std r lim req h in
      Bodied-Among w (trim_space r.body) out req full
        (collected u queried headed out asked added known hidden)
    where
      collected :
          (u : Url) (queried headed : Values × List Bytes) (out : Request)
          → add_queries std r.query (std.query_of u) [] ≡ ok queried
          → add_headers r.headers [] queried.1 ≡ ok headed
          → Authenticated std r.auth (bare_request std r u queried headed) out
          → Hidden r w
          → Among w out.secrets
      collected u queried headed out asked added known (in_query m) =
          let asking = add_queries-Among w r.query _ [] queried asked (inr m) in
          let adding = add_headers-Among w r.headers [] queried.1 headed added (inl asking) in
          Authenticated-Among w r.auth (bare_request std r u queried headed) out known adding
      collected u queried headed out asked added known (in_header m) =
          let adding = add_headers-Among w r.headers [] queried.1 headed added (inr m) in
          Authenticated-Among w r.auth (bare_request std r u queried headed) out known adding
      collected u queried headed out asked added known (is_token t same) =
          subst (λ v. Among v out.secrets) same
            (token-Among r.auth (bare_request std r u queried headed) out t known)
      collected u queried headed out asked added known (is_password t same) =
          subst (λ v. Among v out.secrets) same
            (password-Among r.auth (bare_request std r u queried headed) out t known)

  -- No text that the controller shows, which is redacted, holds a secret of the form that is at least
  -- three bytes long and has no '*': not the value of a query parameter or a header that is marked as
  -- secret, not the bearer token and not the password.
  pub validate_request-Free :
      (r : ApiRequest) (lim : Limits) (req : Request) (w text : Bytes)
      → validate_request std r lim ≡ ok req
      → Hidden r w
      → min_secret ≤ length w
      → All (λ c. (c == b'*') ≡ false) w
      → Free w (redact (new_redactor req.secrets) text)
  validate_request-Free r lim req w text h hidden long clean =
      redact-Free req.secrets text w (validate_request-Among r lim req h hidden) long clean
