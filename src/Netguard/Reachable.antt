-- ===== src/Netguard/Reachable.antt =====
-- Where an accepted URL, and an accepted connection, leads.
use loadtool.Prelude.{
  ◌-◌, ◌≡◌, subst, ◌≢◌, refl, ap, ◌∙◌, ◌⊎◌, inl, inr, List, [], ◌∷◌, ◌++◌, true, false, not, arith,
  or_false, negated, Option, none, some, All, Bytes, codes, bytes_eq, bytes_eq_iff, ends_with,
  to_lower, length, drop, length-append, leb, le→leb,
}
use loadtool.Prelude.Result.{
  ok, >>=-eq-ok, refuse-eq-ok, three_guards-eq-ok, some_or, some_or-eq-ok,
}
use loadtool.Netguard.{
  Addr, Url, Net, unmap, bad_url, check_url, check_shape, check_host, is_web, names_local,
  any_local, local_names, trim_last_dot,
}
use loadtool.Netguard.Public.{InRange, Open, check_addr-Open}

-- The domain itself, or a name in it.
abbrev pub Under : Bytes → Bytes → Type 0
Under top name = (name ≡ top) ⊎ ((pre : Bytes) × (name ≡ pre ++ (b'.' ∷ top)))

abbrev pub local_domains : List Bytes
local_domains = codes "localhost" ∷ codes "local" ∷ codes "internal" ∷ codes "home.arpa" ∷ []

-- A host that is an address is a public one; a name, in lower case and without the dot of the root,
-- is in none of the local domains.
abbrev pub Destination : Option Addr → Bytes → Type 0
Destination (some a) host = Open (unmap a)
Destination none host = All (λ top. ¬ Under top (trim_last_dot (to_lower host))) local_domains

drop-append : (pre v : Bytes) → drop (length (pre ++ v) - length v) (pre ++ v) ≡ v
drop-append pre v = ap (λ n. drop n (pre ++ v)) (omega (arith, length-append pre v)) ∙ from pre
  where
    from : (pre : Bytes) → drop (length pre) (pre ++ v) ≡ v
    from [] = refl
    from (c ∷ pre) = from pre

ends_with-append : (pre v : Bytes) → ends_with v (pre ++ v) ≡ true
ends_with-append pre v =
    let short : leb (length v) (length (pre ++ v)) ≡ true =
      le→leb _ _ (omega (arith, length-append pre v)) in
    let same : bytes_eq (drop (length (pre ++ v) - length v) (pre ++ v)) v ≡ true =
      (bytes_eq_iff _ _).1 (drop-append pre v) in
    rw (short, same)

names_local-Under : (top name : Bytes) → Under top name → names_local (b'.' ∷ top) name ≡ true
names_local-Under top name (inl p) = let same = (bytes_eq_iff name top).1 p in rw same
names_local-Under top name (inr (pre, p)) =
    let tail : ends_with (b'.' ∷ top) name ≡ true = rw p (ends_with-append pre (b'.' ∷ top)) in
    ground arith

any_local_none :
    (local : Bytes) (more : List Bytes) (name : Bytes)
    → any_local (local ∷ more) name ≡ false
    → (names_local local name ≡ false) × (any_local more name ≡ false)
unfolding any_local
any_local_none local more name h = or_false (names_local local name) (any_local more name) h

not_local :
    (name : Bytes)
    → any_local local_names name ≡ false
    → All (λ top. ¬ Under top name) local_domains
not_local name h =
    let a = any_local_none _ _ name h in
    let b = any_local_none _ _ name a.1 in
    let c = any_local_none _ _ name b.1 in
    let d = any_local_none _ _ name c.1 in
    let e = any_local_none _ _ name d.1 in (apart b.0, (apart c.0, (apart d.0, (apart e.0, tt))))
  where
    apart : {top : Bytes} → names_local (b'.' ∷ top) name ≡ false → ¬ Under top name
    apart {top} f u = let t = names_local-Under top name u in absurd (cc (f, t))

pub check_shape-eq-ok :
    (net : Net) (raw : Bytes) (u : Url)
    → check_shape net raw ≡ ok u
    → (net.parse raw ≡ some u) × (is_web u.scheme ≡ true) × (u.user ≡ false) × (net.hostname u ≢ [])
unfolding check_shape
check_shape-eq-ok net raw u h =
    let (v, found, guarded) = >>=-eq-ok (some_or bad_url (net.parse raw)) _ h in
    let (web, alone, hosted, same) =
      three_guards-eq-ok (not (is_web v.scheme)) v.user _ _ _ _ (ok v) guarded in
    let some_host : net.hostname v ≢ [] =
      λ e. (let yes = (bytes_eq_iff (net.hostname v) []).1 e in absurd (cc (yes, hosted))) in
    subst
      (λ w.
        (net.parse raw ≡ some w)
        × (is_web w.scheme ≡ true)
        × (w.user ≡ false)
        × (net.hostname w ≢ []))
      (cc same) (some_or-eq-ok _ _ found, negated (is_web v.scheme) web, alone, some_host)

check_host-Destination :
    (found : Option Addr) (host : Bytes)
    → ((a : Addr) → found ≡ some a → InRange a)
    → check_host found host ≡ ok tt
    → Destination found host
unfolding check_host
check_host-Destination none host range h =
    not_local (trim_last_dot (to_lower host)) (refuse-eq-ok _ _ h)
check_host-Destination (some a) host range h = (check_addr-Open a (range a refl)).0 h

-- A URL that CheckURL accepts was parsed to the result, has the scheme http or https and no user
-- information, and its host is not empty: a name that is in none of the local domains, or an address
-- that, read as IPv4 if it is mapped, is in none of the refused ranges; but one with a zone is held
-- against the ranges of net/netip only, so that 64:ff9b::/96 with a zone, which may embed a private
-- address, is accepted. The parser of addresses gives numbers of 32 and of 128 bits.
pub check_url-Destination :
    (net : Net) (raw : Bytes) (u : Url)
    → ((host : Bytes) (a : Addr) → net.parse_addr host ≡ some a → InRange a)
    → check_url net raw ≡ ok u
    → (net.parse raw ≡ some u)
      × (is_web u.scheme ≡ true)
      × (u.user ≡ false)
      × (net.hostname u ≢ [])
      × Destination (net.parse_addr (net.hostname u)) (net.hostname u)
unfolding check_url
check_url-Destination net raw u ranges h =
    let (v, shaped, hosted) = >>=-eq-ok (check_shape net raw) _ h in
    let (done, reached, same) =
      >>=-eq-ok (check_host (net.parse_addr (net.hostname v)) (net.hostname v)) _ hosted in
    let (parsed, web, alone, some_host) = check_shape-eq-ok net raw v shaped in
    let there =
      check_host-Destination (net.parse_addr (net.hostname v)) (net.hostname v)
        (ranges (net.hostname v)) reached in
    subst
      (λ w.
        (net.parse raw ≡ some w)
        × (is_web w.scheme ≡ true)
        × (w.user ≡ false)
        × (net.hostname w ≢ [])
        × Destination (net.parse_addr (net.hostname w)) (net.hostname w))
      (cc same) (parsed, web, alone, some_host, there)
