-- ===== src/Prelude/Texts.antt =====
-- Texts as the lists of their bytes, where the program looks inside them.
use Prim.Native.Char.{code}
use Prim.Native.String.{String}
use Prim.Native.Nat.{ℕ}
use Prim.Native.Nat.{◌+◌, ◌-◌}
use mathlib.Core.Path.{◌≡◌, refl}
use mathlib.Core.Logic.{◌↔◌}
use mathlib.Core.Bool.{Bool, true, false, ◌&&◌, ◌||◌}
use mathlib.Core.List.{List, [], ◌∷◌, map}
use native.Mathlib.Omega.{arith}
use loadtool.Prelude.Tests.{◌==◌, leb, if◌then◌else◌}
use loadtool.Prelude.Lists.{length, drop}

abbrev pub Bytes : Type 0
Bytes = List ℕ

-- The code points of a literal, which are its bytes: the program's literals are ASCII.
abbrev pub codes : String → Bytes
codes String.[] = []
codes (String.◌∷◌ c s) = code c ∷ codes s

-- strings.HasPrefix, with the prefix first.
abbrev pub starts_with : Bytes → Bytes → Bool
starts_with [] s = true
starts_with (v ∷ vs) [] = false
starts_with (v ∷ vs) (c ∷ s) = v == c && starts_with vs s

abbrev pub bytes_eq : Bytes → Bytes → Bool
bytes_eq [] [] = true
bytes_eq [] (c ∷ t) = false
bytes_eq (c ∷ s) [] = false
bytes_eq (c ∷ s) (d ∷ t) = c == d && bytes_eq s t

pub bytes_eq_iff : (s t : Bytes) → (bytes_eq s t ≡ true) ↔ (s ≡ t)
bytes_eq_iff [] [] = (λ h. refl, λ h. refl)
bytes_eq_iff [] (c ∷ t) = (λ h. absurd (cc h), λ h. absurd (cc h))
bytes_eq_iff (c ∷ s) [] = (λ h. absurd (cc h), λ h. absurd (cc h))
bytes_eq_iff (c ∷ s) (d ∷ t) = ground (arith, bytes_eq_iff s t)

-- strings.HasSuffix, with the suffix first.
abbrev pub ends_with : Bytes → Bytes → Bool
ends_with v s = leb (length v) (length s) && bytes_eq (drop (length s - length v) s) v

abbrev pub is_space : ℕ → Bool
is_space c = c == 32 || (leb 9 c && leb c 13)

-- strings.TrimSpace of a text whose spaces are ASCII.
abbrev pub trim_left : Bytes → Bytes
trim_left [] = []
trim_left (c ∷ s) = let rest = trim_left s in if is_space c then rest else c ∷ s

abbrev pub trim_right : Bytes → Bytes
trim_right [] = []
trim_right (c ∷ s) = drop_blank c (trim_right s)
  where
    drop_blank : ℕ → Bytes → Bytes
    drop_blank c [] = if is_space c then [] else c ∷ []
    drop_blank c (d ∷ s) = c ∷ d ∷ s

abbrev pub trim_space : Bytes → Bytes
trim_space s = trim_right (trim_left s)

-- strings.ToUpper and strings.ToLower of an ASCII text.
abbrev pub upper : ℕ → ℕ
upper c = if leb b'a' c && leb c b'z' then c - 32 else c

abbrev pub lower : ℕ → ℕ
lower c = if leb b'A' c && leb c b'Z' then c + 32 else c

abbrev pub to_upper : Bytes → Bytes
to_upper = map upper

abbrev pub to_lower : Bytes → Bytes
to_lower = map lower

-- strings.ContainsAny, with the bytes first.
abbrev pub is_any : Bytes → ℕ → Bool
is_any [] c = false
is_any (v ∷ vs) c = c == v || is_any vs c

abbrev pub contains_any : Bytes → Bytes → Bool
contains_any vs [] = false
contains_any vs (c ∷ s) = is_any vs c || contains_any vs s
