-- ===== src/Netguard.antt =====
-- The destinations a test may reach (internal/netguard/netguard.go). An address is the number its
-- bits write; the predicates of net/netip are the blocks their documentation names. What net/url
-- and net read from a text is the record `Net`, with no laws assumed. Texts are ASCII.
pub mod Public
pub mod Reachable
mod Tests
use loadtool.Prelude.{
  ℕ, zero, suc, ◌+◌, ◌-◌, ◌*◌, ◌/◌, ◌%◌, ◌^◌, List, [], ◌∷◌, ◌++◌, Option, none, some, Bool, true,
  false, ◌&&◌, ◌||◌, not, leb, ◌==◌, if◌then◌else◌, Bytes, codes, bytes_eq, starts_with, ends_with,
  to_lower, length, drop, take,
}
use loadtool.Prelude.Result.{Result, ok, err, ◌>>=◌, ◌>>◌, refuse, some_or}

-- netip.Addr: the zero Addr, an IPv4 address, and an IPv6 address that has a zone or not.
pub data Addr : Type 0 where
  no_addr : Addr
  v4 : ℕ → Addr
  v6 : ℕ → Bool → Addr

-- netip.Prefix: the address and how many bits it fixes.
pub data Prefix : Type 0 where
  v4_prefix v6_prefix : ℕ → ℕ → Prefix

-- The addresses from `base` on that have the same bits above `size`.
abbrev pub in_block : ℕ → ℕ → ℕ → Bool
in_block base size a = a / size == base / size

abbrev pub dotted : ℕ → ℕ → ℕ → ℕ → ℕ
dotted a b c d = ((a * 256 + b) * 256 + c) * 256 + d

-- An IPv6 address by its first two groups of 16 bits, and its third.
abbrev pub groups : ℕ → ℕ → ℕ → ℕ
groups a b c = ((a * 2 ^ 16 + b) * 2 ^ 16 + c) * 2 ^ 80

-- The IPv4 addresses mapped into IPv6, ::ffff:0:0/96.
abbrev pub mapped_base : ℕ
mapped_base = 65535 * 2 ^ 32

unfoldable pub unmap : Addr → Addr
unmap no_addr = no_addr
unmap (v4 a) = v4 a
unmap (v6 a zone) = if in_block mapped_base (2 ^ 32) a then v4 (a - mapped_base) else v6 a zone

-- Prefix.Contains: of the other family and with a zone an address is in no prefix.
unfoldable pub contains : Prefix → Addr → Bool
contains (v4_prefix base bits) (v4 a) = in_block base (2 ^ (32 - bits)) a
contains (v6_prefix base bits) (v6 a false) = in_block base (2 ^ (128 - bits)) a
contains p a = false

-- The predicates of netip.Addr, each on an address that `unmap` has gone over.
abbrev pub is_loopback : Addr → Bool
is_loopback no_addr = false
is_loopback (v4 a) = in_block (dotted 127 0 0 0) (2 ^ 24) a
is_loopback (v6 a zone) = a == 1

abbrev pub is_private : Addr → Bool
is_private no_addr = false
is_private (v4 a) =
    in_block (dotted 10 0 0 0) (2 ^ 24) a
    || in_block (dotted 172 16 0 0) (2 ^ 20) a
    || in_block (dotted 192 168 0 0) (2 ^ 16) a
is_private (v6 a zone) = in_block (groups 0xfc00 0 0) (2 ^ 121) a

abbrev pub is_link_local_unicast : Addr → Bool
is_link_local_unicast no_addr = false
is_link_local_unicast (v4 a) = in_block (dotted 169 254 0 0) (2 ^ 16) a
is_link_local_unicast (v6 a zone) = in_block (groups 0xfe80 0 0) (2 ^ 118) a

abbrev pub is_multicast : Addr → Bool
is_multicast no_addr = false
is_multicast (v4 a) = in_block (dotted 224 0 0 0) (2 ^ 28) a
is_multicast (v6 a zone) = in_block (groups 0xff00 0 0) (2 ^ 120) a

-- The two link-local and interface-local multicast predicates name parts of these blocks.
abbrev pub is_local_multicast : Addr → Bool
is_local_multicast no_addr = false
is_local_multicast (v4 a) = in_block (dotted 224 0 0 0) (2 ^ 8) a
is_local_multicast (v6 a zone) = is_multicast (v6 a zone) && is_scope (a / 2 ^ 112)
  where
    is_scope : ℕ → Bool
    is_scope hi = hi % 16 == 1 || hi % 16 == 2

abbrev pub is_unspecified : Addr → Bool
is_unspecified no_addr = false
is_unspecified (v4 a) = a == 0
is_unspecified (v6 a zone) = if zone then false else a == 0

abbrev pub is_valid : Addr → Bool
is_valid no_addr = false
is_valid (v4 a) = true
is_valid (v6 a zone) = true

unfoldable pub refused : List Prefix
refused =
    v4_prefix (dotted 0 0 0 0) 8
    ∷ v4_prefix (dotted 100 64 0 0) 10
    ∷ v4_prefix (dotted 192 0 0 0) 24
    ∷ v4_prefix (dotted 192 0 2 0) 24
    ∷ v4_prefix (dotted 192 88 99 0) 24
    ∷ v4_prefix (dotted 198 18 0 0) 15
    ∷ v4_prefix (dotted 198 51 100 0) 24
    ∷ v4_prefix (dotted 203 0 113 0) 24
    ∷ v4_prefix (dotted 240 0 0 0) 4
    ∷ v6_prefix (groups 0x64 0xff9b 0) 96
    ∷ v6_prefix (groups 0x64 0xff9b 1) 48
    ∷ v6_prefix (groups 0x100 0 0) 64
    ∷ v6_prefix (groups 0x2001 0 0) 23
    ∷ v6_prefix (groups 0x2001 0xdb8 0) 32
    ∷ v6_prefix (groups 0x2002 0 0) 16
    ∷ []

-- What the checks return; only the first wraps ErrRefused.
pub data Refusal : Type 0 where
  not_public bad_url bad_scheme user_in_url no_host : Refusal

unfoldable pub contained : List Prefix → Addr → Bool
contained [] a = false
contained (p ∷ ps) a = contains p a || contained ps a

-- The condition of CheckAddr, on the unmapped address.
unfoldable pub is_special : Addr → Bool
is_special a =
    not (is_valid a)
    || is_loopback a
    || is_private a
    || is_link_local_unicast a
    || is_local_multicast a
    || is_multicast a
    || is_unspecified a

unfoldable pub check_addr : Addr → Result Refusal (Unit {0})
check_addr a =
    refuse (is_special (unmap a)) not_public >> refuse (contained refused (unmap a)) not_public

-- What the code reads of a *url.URL: whether it has user information, and the rest of it as text.
pub record Url : Type 0 where
  pub scheme : Bytes
  pub user : Bool
  pub host : Bytes
  pub path : Bytes
  pub raw_query : Bytes
  pub fragment : Bytes

pub record Net : Type 0 where
  -- url.Parse, without its error
  pub parse : Bytes → Option Url
  pub hostname : Url → Bytes
  -- netip.ParseAddr
  pub parse_addr : Bytes → Option Addr
  -- net.SplitHostPort, the host of it
  pub split_host_port : Bytes → Option Bytes

-- Control, without the network and the connection it does not read.
unfoldable pub control : Net → Bytes → Result Refusal (Unit {0})
control net address = some_or not_public (net.split_host_port address) >>= λ host.
    some_or not_public (net.parse_addr host) >>= λ a. check_addr a

abbrev pub local_names : List Bytes
local_names =
    codes "localhost"
    ∷ codes ".localhost"
    ∷ codes ".local"
    ∷ codes ".internal"
    ∷ codes ".home.arpa"
    ∷ []

-- strings.TrimPrefix and strings.TrimSuffix of a dot.
abbrev pub trim_dot : Bytes → Bytes
trim_dot [] = []
trim_dot (c ∷ s) = if c == b'.' then s else c ∷ s

abbrev pub trim_last_dot : Bytes → Bytes
trim_last_dot s = if ends_with (codes ".") s then take (length s - 1) s else s

-- The condition in the loop over the local names.
abbrev pub names_local : Bytes → Bytes → Bool
names_local local name =
    bytes_eq name (trim_dot local) || (starts_with (codes ".") local && ends_with local name)

unfoldable pub any_local : List Bytes → Bytes → Bool
any_local [] name = false
any_local (local ∷ more) name = names_local local name || any_local more name

-- The host: what ParseAddr makes of it, and its text.
unfoldable pub check_host : Option Addr → Bytes → Result Refusal (Unit {0})
check_host (some a) host = check_addr a
check_host none host = refuse (any_local local_names (trim_last_dot (to_lower host))) not_public

abbrev pub is_web : Bytes → Bool
is_web scheme = bytes_eq scheme (codes "http") || bytes_eq scheme (codes "https")

-- CheckURL before it looks at the host.
unfoldable pub check_shape : Net → Bytes → Result Refusal Url
check_shape net raw = some_or bad_url (net.parse raw) >>= λ u.
    refuse (not (is_web u.scheme)) bad_scheme
    >> refuse u.user user_in_url
    >> refuse (bytes_eq (net.hostname u) []) no_host
    >> ok u

unfoldable pub check_url : Net → Bytes → Result Refusal Url
check_url net raw = check_shape net raw >>= λ u.
    check_host (net.parse_addr (net.hostname u)) (net.hostname u) >> ok u
