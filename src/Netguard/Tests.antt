-- ===== src/Netguard/Tests.antt =====
-- Runs, and the theorems at concrete addresses.
use loadtool.Prelude.{
  ◌+◌, ◌≡◌, ◌≢◌, subst, [], refl, ◌↔◌, Option, none, some, Bool, true, false, if◌then◌else◌, arith,
  Bytes, codes, starts_with, bytes_eq, drop,
}
use loadtool.Prelude.Result.{ok, err}
use loadtool.Netguard.{
  Addr, v4, v6, Net, Url, check_addr, check_url, check_shape, check_host, unmap, contains,
  contained, refused, is_special, is_web, dotted, groups, mapped_base, not_public, any_local,
}
use loadtool.Netguard.Public.{Open, InRange, check_addr-Open}
use loadtool.Netguard.Reachable.{check_url-Destination}

-- Addresses of one host, and everything behind "http://" taken for the host.
abbrev pub dns : Bytes → Option Addr
dns host =
    if bytes_eq host (codes "8.8.8.8")
    then some (v4 (dotted 8 8 8 8))
    else if bytes_eq host (codes "10.0.0.5")
    then some (v4 (dotted 10 0 0 5))
    else none

abbrev pub simple_url : Bytes → Url
simple_url host = record {
  scheme = codes "http";
  user = false;
  host = host;
  path = [];
  raw_query = [];
  fragment = [];
}

abbrev pub net : Net
net = record {
  parse = λ raw. if starts_with (codes "http://") raw then some (simple_url (drop 7 raw)) else none;
  hostname = λ u. u.host;
  parse_addr = dns;
  split_host_port = λ address. none;
}

mapped_private : check_addr (v6 (mapped_base + dotted 10 0 0 1) false) ≡ err not_public
unfolding check_addr unmap is_special
mapped_private = refl

documentation_range : check_addr (v6 (groups 0x2001 0xdb8 0) false) ≡ err not_public
unfolding check_addr unmap is_special contained contains refused
documentation_range = refl

local_host : check_url net (codes "http://METADATA.google.Internal.") ≡ err not_public
unfolding check_url check_shape check_host any_local
local_host = refl

check_addr-Open_example :
    (check_addr (v4 (dotted 8 8 8 8)) ≡ ok tt) ↔ Open (unmap (v4 (dotted 8 8 8 8)))
check_addr-Open_example = check_addr-Open (v4 (dotted 8 8 8 8)) (omega arith)

in_google : InRange (v4 (dotted 8 8 8 8))
in_google = omega arith

in_private : InRange (v4 (dotted 10 0 0 5))
in_private = omega arith

dns_ranges : (host : Bytes) (a : Addr) → dns host ≡ some a → InRange a
dns_ranges host a h = among (bytes_eq host (codes "8.8.8.8")) (bytes_eq host (codes "10.0.0.5")) h
  where
    among :
        (x y : Bool)
        → (if x
            then some (v4 (dotted 8 8 8 8))
            else if y
            then some (v4 (dotted 10 0 0 5))
            else none)
          ≡ some a
        → InRange a
    among true y h = subst InRange {x = v4 (dotted 8 8 8 8)} (cc h) in_google
    among false true h = subst InRange {x = v4 (dotted 10 0 0 5)} (cc h) in_private
    among false false h = absurd (cc h)

google_ok : check_url net (codes "http://8.8.8.8") ≡ ok (simple_url (codes "8.8.8.8"))
unfolding check_url check_shape check_host check_addr unmap is_special contained contains refused
google_ok = refl

check_url-Destination_example :
    (net.parse (codes "http://8.8.8.8") ≡ some (simple_url (codes "8.8.8.8")))
    × (is_web (codes "http") ≡ true)
    × (false ≡ false)
    × (codes "8.8.8.8" ≢ [])
    × Open (v4 (dotted 8 8 8 8))
unfolding unmap
check_url-Destination_example =
    check_url-Destination net (codes "http://8.8.8.8") (simple_url (codes "8.8.8.8")) dns_ranges
      google_ok
