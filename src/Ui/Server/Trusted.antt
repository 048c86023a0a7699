-- ===== src/Ui/Server/Trusted.antt =====
-- Who can start and cancel a test.
use loadtool.Prelude.{
  ℕ, [], Option, none, some, Bool, true, false, ◌&&◌, not, Bytes, codes, bytes_eq, bytes_eq_iff,
  ◌≡◌, ◌≢◌, refl, ◌⊎◌, inl, inr, arith, Bool-cases, negated,
}
use loadtool.Prelude.Result.{Result, ok, ◌>>◌, refuse, Result-cases}
use loadtool.Ui.Config.{Std}
use loadtool.Ui.Controller.{Controller}
use loadtool.Ui.Server.{
  Server, HttpRequest, Web, Route, files, preflight_api, start_api, status_api, cancel_api,
  report_api, admit, handle, serve, known_host, is_api, is_post, trim_prefix,
}

abbrev pub Trusted : Server → HttpRequest → Type 0
Trusted s r =
    (known_host s r.host ≡ true)
    × (r.token ≡ s.token)
    × ((r.origin ≡ []) ⊎ (known_host s (trim_prefix (codes "http://") r.origin) ≡ true))

-- The routes whose handlers call Start or Cancel.
abbrev pub changes : Option Route → Bool
changes (some start_api) = true
changes (some (cancel_api id)) = true
changes other = false

admitted :
    (media_type : Bytes → Bytes) (s : Server) (r : HttpRequest)
    → admit media_type s r ≡ ok tt
    → is_api r ≡ true
    → Trusted s r
unfolding admit
admitted media_type s r h api =
    let json = bytes_eq (media_type r.content_type) (codes "application/json") in
    let (host, origin, token) =
      passed (not (known_host s r.host)) (bytes_eq r.origin [])
        (known_host s (trim_prefix (codes "http://") r.origin)) (bytes_eq r.token s.token)
        (is_post r && not json) (rw api at h) in
    (negated (known_host s r.host) host, (bytes_eq_iff r.token s.token).0 token, from origin)
  where
    passed :
        (x y k z w : Bool)
        → ◌≡◌ {A = Result ℕ (Unit {0})}
            (refuse x 421 >> refuse (not y && not k) 403 >> refuse (not z) 401 >> refuse w 415)
            (ok tt)
        → (x ≡ false) × ((y ≡ true) ⊎ (k ≡ true)) × (z ≡ true)
    passed x y k z w h = ground arith

    from :
        (bytes_eq r.origin [] ≡ true)
          ⊎ (known_host s (trim_prefix (codes "http://") r.origin) ≡ true)
        → (r.origin ≡ []) ⊎ (known_host s (trim_prefix (codes "http://") r.origin) ≡ true)
    from (inl e) = inl ((bytes_eq_iff r.origin []).0 e)
    from (inr e) = inr e

handle_unchanged :
    (std : Std) (web : Web std) (o : Option Route) (r : HttpRequest) (ctl : Controller)
    → changes o ≡ false
    → (handle std web o r ctl).1 ≡ ctl
unfolding handle
handle_unchanged std web none r ctl h = refl
handle_unchanged std web (some files) r ctl h = refl
handle_unchanged std web (some preflight_api) r ctl h = refl
handle_unchanged std web (some start_api) r ctl h = absurd (cc h)
handle_unchanged std web (some (status_api id)) r ctl h = refl
handle_unchanged std web (some (cancel_api id)) r ctl h = absurd (cc h)
handle_unchanged std web (some (report_api id html)) r ctl h = refl

-- A request that changes the controller carried its session token, named one of its hosts, and came
-- from no other origin. The router gives the routes of Start and Cancel to paths under /api/ only.
pub serve-Trusted :
    (std : Std) (web : Web std) (s : Server) (r : HttpRequest) (ctl : Controller)
    → (changes (web.route r) ≡ true → is_api r ≡ true)
    → (serve std web s r ctl).1 ≢ ctl
    → Trusted s r
unfolding serve
serve-Trusted std web s r ctl api changed = elim (Result-cases (admit web.media_type s r)) [
  | inl (done, e) ↦ elim (Bool-cases (changes (web.route r))) [
    | inl c ↦ admitted web.media_type s r e (api c)
    | inr c ↦ absurd (changed (rw e (handle_unchanged std web (web.route r) r ctl c)))
  ]
  | inr (code, e) ↦ absurd (changed (rw e refl))
]
