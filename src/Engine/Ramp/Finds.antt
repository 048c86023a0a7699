-- ===== src/Engine/Ramp/Finds.antt =====
-- The first offset at which a state holds, and the search inside one stage.
use loadtool.Prelude.{
  ℕ, ◌+◌, ◌-◌, ◌*◌, ◌/◌, ◌%◌, ◌≤◌, ◌<◌, ◌≡◌, refl, sym, ap, ◌∙◌, Bool, true, false, List, [], ◌∷◌,
  Option, none, some, arith, ltb, leb, not, if◌then◌else◌, ◌⊎◌, Bool-cases, inl, inr, le→leb,
  ltb→lt,
}
use loadtool.Prelude.Int.{ℤ, leb_ℤ-pos, ltb_ℤ-pos, pos, negsuc, leb_ℤ, div_ℤ}
use loadtool.Engine.Ramp.{
  Stage, microseconds, length_from, Search, found, absent, panic, same, take_dx, or_search,
  active_from,
}
use loadtool.Engine.Ramp.Line.{reaches, line-pos, leb-floor}
use loadtool.Engine.Ramp.Segment.{Decides}

-- `r` is the first offset from `lo` on, and before `hi`, at which `state` is `want`.
abbrev pub Finds : (ℕ → Bool) → ℕ → ℕ → Bool → Search → Type 0
Finds state lo hi want (found at) =
    (lo ≤ at) × (at < hi) × (state at ≡ want) × ((s : ℕ) → lo ≤ s → s < at → state s ≡ not want)
Finds state lo hi want absent = (s : ℕ) → lo ≤ s → s < hi → state s ≡ not want
Finds state lo hi want panic = ⊥

-- At least `level` VUs are active. A panic counts as none.
abbrev pub at_least : ℕ → Option ℤ → Bool
at_least level none = false
at_least level (some v) = leb_ℤ (pos level) v

abbrev pub IsWhole : Stage → Type 0
IsWhole st = st.duration % 1000 ≡ 0

pub Finds-skip :
    (state state' : ℕ → Bool) (lo lo' hi : ℕ) (want : Bool) (r : Search)
    → lo ≤ lo'
    → ((s : ℕ) → lo ≤ s → (lo' ≤ s) × (state s ≡ state' s))
    → Finds state' lo' hi want r
    → Finds state lo hi want r
Finds-skip state state' lo lo' hi want (found at) le agree (a, b, c, d) =
    (omega arith, b, (agree at (omega arith)).1 ∙ c, λ s h k. (agree s h).1 ∙ d s (agree s h).0 k)
Finds-skip state state' lo lo' hi want absent le agree f =
    λ s h k. (agree s h).1 ∙ f s (agree s h).0 k
Finds-skip state state' lo lo' hi want panic le agree f = f

pub Finds-or :
    (state state' : ℕ → Bool) (lo mid hi : ℕ) (want : Bool) (r r' : Search)
    → lo ≤ mid
    → mid ≤ hi
    → ((s : ℕ) → mid ≤ s → state s ≡ state' s)
    → Finds state lo mid want r
    → Finds state' mid hi want r'
    → Finds state lo hi want (or_search r r')
Finds-or state state' lo mid hi want (found at) r' le le' agree (a, b, c, d) g =
    (a, omega arith, c, d)
Finds-or state state' lo mid hi want panic r' le le' agree f g = absurd f
Finds-or state state' lo mid hi want absent (found at) le le' agree f (a, b, c, d) = (
  omega arith,
  b,
  agree at a ∙ c,
  λ s h k. elim (Bool-cases (ltb s mid)) [
    | inl e ↦ f s h (ltb→lt _ _ e)
    | inr e ↦ let m : mid ≤ s = ground arith in agree s m ∙ d s m k
  ],
)
Finds-or state state' lo mid hi want absent absent le le' agree f g = λ s h k.
    elim (Bool-cases (ltb s mid)) [
      | inl e ↦ f s h (ltb→lt _ _ e)
      | inr e ↦ let m : mid ≤ s = ground arith in agree s m ∙ g s m k
    ]
Finds-or state state' lo mid hi want absent panic le le' agree f g = g

pub length_from-le : (d : ℕ) (sts : List Stage) → d ≤ length_from d sts
unfolding length_from
length_from-le d [] = omega arith
length_from-le d (st ∷ sts) = omega (arith, length_from-le (d + st.duration) sts)

pub same-want : (b want : Bool) → same b want ≡ true → b ≡ want
same-want true want e = sym e
same-want false true e = cc
same-want false false e = refl

pub same-not : (b want : Bool) → same b want ≡ false → b ≡ not want
same-not true true e = cc
same-not true false e = refl
same-not false true e = refl
same-not false false e = cc

pub same-true : (want : Bool) → same want true ≡ want
same-true true = refl
same-true false = refl

pub same-false : (want : Bool) → same want false ≡ not want
same-false true = refl
same-false false = refl

-- Inside a stage that lasts, the number of active VUs is the floor of the line.
pub active_in :
    (st : Stage) (sts : List Stage) (seg from level s : ℕ)
    → IsWhole st
    → seg ≤ s
    → s < seg + st.duration
    → at_least level (active_from (st ∷ sts) seg from s)
      ≡ reaches level from st.target (microseconds st.duration) (microseconds (s - seg))
unfolding active_from
active_in st sts seg from level s w a b =
    let d = microseconds st.duration in
    let x = microseconds (s - seg) in
    let long : ltb 0 st.duration ≡ true = ground arith in
    let live : ltb s (seg + st.duration) ≡ true = ground arith in
    let v = line-pos from st.target d x (omega arith) in
    let pos_d : 0 < d = omega arith in
    let q : div_ℤ (pos (from * d + st.target * x - from * x)) (pos d)
        ≡ some (pos ((from * d + st.target * x - from * x) / d)) =
      ground arith in
    rw (long, live, v, q)
      (leb_ℤ-pos level _ ∙ leb-floor level from st.target d x pos_d (omega arith))

-- The offset of a computed crossing, in a stage whose states `state` are known.
pub take_dx-Finds :
    (state : ℕ → Bool) (level from to seg lo len : ℕ) (want : Bool) (dx : Option ℤ)
    → len % 1000 ≡ 0
    → seg ≤ lo
    → lo < seg + len
    → ((s : ℕ)
        → lo ≤ s
        → s < seg + len
        → state s ≡ reaches level from to (len / 1000) ((s - seg) / 1000))
    → Decides level from to (len / 1000) ((lo - seg) / 1000) want dx
    → Finds state lo (seg + len) want (take_dx seg (len / 1000) dx)
take_dx-Finds state level from to seg lo len want none w a b agree f = f
take_dx-Finds state level from to seg lo len want (some (negsuc m)) w a b agree f =
    let negative : leb_ℤ (pos 0) (negsuc m) ≡ false = ground arith in
    rw negative (λ s h k. agree s h k ∙ f ((s - seg) / 1000) (omega arith) (omega arith))
take_dx-Finds state level from to seg lo len want (some (pos q)) w a b agree (after, side) =
    rw (leb_ℤ-pos 0 q, le→leb 0 q (omega arith), ltb_ℤ-pos q (len / 1000))
      (split (Bool-cases (ltb q (len / 1000))))
  where
    at_side :
        (s x : ℕ) → x ≡ (s - seg) / 1000 → lo ≤ s → s < seg + len → state s ≡ same want (leb q x)
    at_side s x e h k =
        agree s h k
        ∙ ap (reaches level from to (len / 1000)) (sym e)
        ∙ side x (omega arith) (omega arith)

    split :
        (ltb q (len / 1000) ≡ true) ⊎ (ltb q (len / 1000) ≡ false)
        → Finds state lo
            (seg + len)
            want
            (if ltb q (len / 1000) then found (seg + q * 1000) else absent)
    split (inl e) =
        let lt = ltb→lt _ _ e in
        rw e (
          omega arith,
          omega arith,
          at_side (seg + q * 1000) q (omega arith) (omega arith) (omega arith)
              ∙ ap (same want) (le→leb q q (omega arith))
              ∙ same-true want,
          λ s h k.
              let x = (s - seg) / 1000 in
              let low : leb q x ≡ false = ground arith in
              at_side s x refl h (omega arith) ∙ ap (same want) low ∙ same-false want,
        )
    split (inr e) = rw e (λ s h k.
        let x = (s - seg) / 1000 in
        let low : leb q x ≡ false = ground arith in
        at_side s x refl h k ∙ ap (same want) low ∙ same-false want)
