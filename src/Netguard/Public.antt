-- ===== src/Netguard/Public.antt =====
-- Which addresses pass, by the ranges that do not.
use loadtool.Prelude.{ℕ, ◌+◌, ◌-◌, ◌^◌, ◌<◌, ◌≡◌, ◌⊎◌, ◌↔◌, List, [], ◌∷◌, Bool, true, false, arith}
use loadtool.Prelude.Result.{ok, ◌>>◌, refuse}
use loadtool.Netguard.{
  Addr, no_addr, v4, v6, dotted, groups, unmap, contains, contained, refused, is_special,
  check_addr, not_public,
}

-- Every range of the list, given by its first and its last address, leaves `a` out.
abbrev pub Outside : List (ℕ × ℕ) → ℕ → Type 0
Outside [] a = Unit
Outside ((first, last) ∷ more) a = ((a < first) ⊎ (last < a)) × Outside more a

-- "This network", private, shared, loopback, link-local, assigned, documentation, 6to4 relays,
-- benchmarking, multicast and reserved.
abbrev pub closed_v4 : List (ℕ × ℕ)
closed_v4 =
    (dotted 0 0 0 0, dotted 0 255 255 255)
    ∷ (dotted 10 0 0 0, dotted 10 255 255 255)
    ∷ (dotted 100 64 0 0, dotted 100 127 255 255)
    ∷ (dotted 127 0 0 0, dotted 127 255 255 255)
    ∷ (dotted 169 254 0 0, dotted 169 254 255 255)
    ∷ (dotted 172 16 0 0, dotted 172 31 255 255)
    ∷ (dotted 192 0 0 0, dotted 192 0 0 255)
    ∷ (dotted 192 0 2 0, dotted 192 0 2 255)
    ∷ (dotted 192 88 99 0, dotted 192 88 99 255)
    ∷ (dotted 192 168 0 0, dotted 192 168 255 255)
    ∷ (dotted 198 18 0 0, dotted 198 19 255 255)
    ∷ (dotted 198 51 100 0, dotted 198 51 100 255)
    ∷ (dotted 203 0 113 0, dotted 203 0 113 255)
    ∷ (dotted 224 0 0 0, dotted 255 255 255 255)
    ∷ []

-- The last address that begins with these groups.
abbrev pub last_of : ℕ → ℕ → ℕ → ℕ
last_of a b c = groups a b c + (2 ^ 80 - 1)

-- :: and ::1, unique local, link-local and multicast: the ranges that net/netip names.
abbrev pub special_v6 : List (ℕ × ℕ)
special_v6 =
    (1, 1)
    ∷ (groups 0xfc00 0 0, last_of 0xfdff 0xffff 0xffff)
    ∷ (groups 0xfe80 0 0, last_of 0xfebf 0xffff 0xffff)
    ∷ (groups 0xff00 0 0, last_of 0xffff 0xffff 0xffff)
    ∷ []

-- NAT64, local NAT64, discard, assigned with Teredo, documentation, 6to4.
abbrev pub closed_v6 : List (ℕ × ℕ)
closed_v6 =
    (0, 0)
    ∷ (groups 0x64 0xff9b 0, groups 0x64 0xff9b 0 + (2 ^ 32 - 1))
    ∷ (groups 0x64 0xff9b 1, last_of 0x64 0xff9b 1)
    ∷ (groups 0x100 0 0, groups 0x100 0 0 + (2 ^ 64 - 1))
    ∷ (groups 0x2001 0 0, last_of 0x2001 0x1ff 0xffff)
    ∷ (groups 0x2001 0xdb8 0, last_of 0x2001 0xdb8 0xffff)
    ∷ (groups 0x2002 0 0, last_of 0x2002 0xffff 0xffff)
    ∷ []

abbrev pub InRange : Addr → Type 0
InRange no_addr = Unit
InRange (v4 a) = a < 2 ^ 32
InRange (v6 a zone) = a < 2 ^ 128

-- An unmapped address that no range holds. One with a zone is held against the first list only.
abbrev pub Open : Addr → Type 0
Open no_addr = ⊥
Open (v4 a) = Outside closed_v4 a
Open (v6 a false) = Outside special_v6 a × Outside closed_v6 a
Open (v6 a true) = Outside special_v6 a

special_or_contained :
    (x y : Bool)
    → (x ≡ false) × (y ≡ false) ↔ ((refuse x not_public >> refuse y not_public) ≡ ok tt)
special_or_contained x y = ground arith

Open-unmapped :
    (a : Addr) → InRange a → (is_special a ≡ false) × (contained refused a ≡ false) ↔ Open a
unfolding is_special contained refused contains
Open-unmapped no_addr h = ground arith
Open-unmapped (v4 a) h = ground arith
Open-unmapped (v6 a false) h = ground arith
Open-unmapped (v6 a true) h = ground arith

InRange-unmap : (a : Addr) → InRange a → InRange (unmap a)
unfolding unmap
InRange-unmap no_addr h = tt
InRange-unmap (v4 a) h = h
InRange-unmap (v6 a zone) h = ground arith

-- CheckAddr accepts an address exactly if, with an IPv4 address that is mapped into IPv6 read as
-- the IPv4 address, none of the ranges above holds it; an IPv6 address with a zone it holds against
-- the ranges of net/netip only, so that 64:ff9b::/96 with a zone, which may embed a private
-- address, passes.
pub check_addr-Open : (a : Addr) → InRange a → (check_addr a ≡ ok tt) ↔ Open (unmap a)
unfolding check_addr
check_addr-Open a h =
    let x = special_or_contained (is_special (unmap a)) (contained refused (unmap a)) in
    let y = Open-unmapped (unmap a) (InRange-unmap a h) in (λ p. y.0 (x.1 p), λ p. x.0 (y.1 p))
