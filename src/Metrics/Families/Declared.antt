-- ===== src/Metrics/Families/Declared.antt =====
-- The families that NewFamilies accepts, and the look-up of their identifiers.
use loadtool.Prelude.{
  ℕ, zero, suc, ◌+◌, List, [], ◌∷◌, ◌++◌, map, Option, none, some, Bool, true, false, not, ◌≡◌,
  refl, ◌∙◌, subst, ap, arith, if◌then◌else◌, Bytes, bytes_eq, bytes_eq_iff, get_elem?, Bool-cases,
  Option-cases, some_inj, inl, inr,
}
use loadtool.Prelude.Result.{ok, ok_inj}
use loadtool.Metrics.Families.{
  Def, Families, Problem, bad_name, reserved_name, unknown_kind, declared_twice, is_family_name,
  is_reserved, reserved_names, is_known, is_some, find_id, problem_of, declare, finished,
  new_families, new_family,
}

-- A name of the pattern that no built-in metric has, and a kind that exists.
abbrev pub IsValid : Def → Type 0
IsValid d =
    (is_family_name d.name ≡ true)
    × (is_reserved reserved_names d.name ≡ false)
    × (is_known d.kind ≡ true)

problem_of-none :
    (ids : List (Bytes × ℕ)) (d : Def)
    → problem_of ids d ≡ none
    → IsValid d × (find_id ids d.name ≡ none)
unfolding problem_of
problem_of-none ids d h =
    passed (is_family_name d.name) (is_reserved reserved_names d.name) (is_known d.kind)
      (find_id ids d.name) h
  where
    passed :
        (x y z : Bool) (o : Option ℕ)
        → (if not x
            then some (bad_name d.name)
            else if y
            then some (reserved_name d.name)
            else if not z
            then some (unknown_kind d.name)
            else if is_some o
            then some (declared_twice d.name)
            else none)
          ≡ none
        → ((x ≡ true) × (y ≡ false) × (z ≡ true)) × (o ≡ none)
    passed false y z o h = absurd (cc h)
    passed true true z o h = absurd (cc h)
    passed true false false o h = absurd (cc h)
    passed true false true (some id) h = absurd (cc h)
    passed true false true none h = ((refl, refl, refl), refl)

find_id-append :
    (ids : List (Bytes × ℕ)) (name new : Bytes) (i k : ℕ)
    → find_id ids name ≡ some k
    → find_id (ids ++ ((new, i) ∷ [])) name ≡ some k
unfolding find_id
find_id-append [] name new i k h = absurd (cc h)
find_id-append ((n, id) ∷ ids) name new i k h = elim (Bool-cases (bytes_eq name n)) [
  | inl e ↦ rw e (rw e at h)
  | inr e ↦ rw e (find_id-append ids name new i k (rw e at h))
]

find_id-append_new :
    (ids : List (Bytes × ℕ)) (name : Bytes) (i : ℕ)
    → find_id ids name ≡ none
    → find_id (ids ++ ((name, i) ∷ [])) name ≡ some i
unfolding find_id
find_id-append_new [] name i h = let same = (bytes_eq_iff name name).1 refl in rw same
find_id-append_new ((n, id) ∷ ids) name i h = elim (Bool-cases (bytes_eq name n)) [
  | inl e ↦ (let no : some id ≡ none = rw e at h in absurd (cc no))
  | inr e ↦ rw e (find_id-append_new ids name i (rw e at h))
]

-- What `declare` leaves of an identifier, and what it gives a definition.
abbrev pub Keeps : List (Bytes × ℕ) → List (Bytes × ℕ) → Type 0
Keeps ids out = (name : Bytes) (k : ℕ) → find_id ids name ≡ some k → find_id out name ≡ some k

abbrev pub Finds : ℕ → List Def → List (Bytes × ℕ) → Type 0
Finds i ds out =
    (j : ℕ) (d : Def) → get_elem? ds j ≡ some d → IsValid d × (find_id out d.name ≡ some (i + j))

Finds-cons :
    (i : ℕ) (d : Def) (ds : List Def) (out : List (Bytes × ℕ))
    → IsValid d × (find_id out d.name ≡ some i)
    → Finds (suc i) ds out
    → Finds i (d ∷ ds) out
Finds-cons i d ds out first finds zero e h =
    subst (λ x. IsValid x × (find_id out x.name ≡ some (i + 0))) (some_inj h)
      (first.0, first.1 ∙ ap some (omega arith))
Finds-cons i d ds out first finds (suc j) e h =
    let (valid, found) = finds j e h in (valid, found ∙ ap some (omega arith))

declare-ok :
    (i : ℕ) (ds : List Def) (ids out : List (Bytes × ℕ))
    → declare i ds ids ≡ ([], out)
    → Keeps ids out × Finds i ds out
unfolding declare
declare-ok i [] ids out h =
    let same : ids ≡ out = ap (λ (x : List Problem × List (Bytes × ℕ)). x.1) h in
    (
      λ name k f. subst (λ m. find_id m name ≡ some k) same f,
      λ j d none_there. absurd (cc none_there),
    )
declare-ok i (d ∷ ds) ids out h = elim (Option-cases (problem_of ids d)) [
  | inl e ↦
      let h' : declare (suc i) ds (ids ++ ((d.name, i) ∷ [])) ≡ ([], out) = rw (e, declare) at h in
      let (valid, new) = problem_of-none ids d e in
      let (keeps, finds) = declare-ok (suc i) ds (ids ++ ((d.name, i) ∷ [])) out h' in
      (
        λ name k f. keeps name k (find_id-append ids name d.name i k f),
        Finds-cons i d ds out (valid, keeps d.name i (find_id-append_new ids d.name i new)) finds,
      )
  | inr (why, e) ↦
      let rest = declare (suc i) ds ids in
      let h' : ◌≡◌ {A = List Problem × List (Bytes × ℕ)} (why ∷ rest.0, rest.1) ([], out) =
        rw (e, declare) at h in
      let no : ◌≡◌ {A = List Problem} (why ∷ rest.0) [] =
        ap (λ (x : List Problem × List (Bytes × ℕ)). x.0) h' in
      absurd (cc no)
]

get_elem?-map :
    (ds : List Def) (i : ℕ) (d : Def)
    → get_elem? ds i ≡ some d
    → get_elem? (map new_family ds) i ≡ some (new_family d)
get_elem?-map [] i d h = absurd (cc h)
get_elem?-map (e ∷ ds) zero d h = ap (λ x. some (new_family x)) (some_inj h)
get_elem?-map (e ∷ ds) (suc i) d h = get_elem?-map ds i d h

-- If NewFamilies reports no error, each of its definitions is valid, and ID finds each by its name
-- under the number of its place, where an empty family of its definition stands; so no two
-- definitions have the same name.
pub new_families-finds :
    (defs : List Def) (f : Families) (i : ℕ) (d : Def)
    → new_families defs ≡ ok f
    → get_elem? defs i ≡ some d
    → IsValid d × (find_id f.ids d.name ≡ some i) × (get_elem? f.fams i ≡ some (new_family d))
unfolding new_families
new_families-finds defs f i d h at = accepted (declare 0 defs []) refl h
  where
    accepted :
        (r : List Problem × List (Bytes × ℕ))
        → declare 0 defs [] ≡ r
        → finished defs r ≡ ok f
        → IsValid d × (find_id f.ids d.name ≡ some i) × (get_elem? f.fams i ≡ some (new_family d))
    accepted (why ∷ more, ids) e h = absurd (cc h)
    accepted ([], ids) e h =
        let (keeps, finds) = declare-ok 0 defs [] ids e in
        let (valid, found) = finds i d at in
        subst
          (λ x.
            IsValid d
            × (find_id x.ids d.name ≡ some i)
            × (get_elem? x.fams i ≡ some (new_family d)))
          (ok_inj h) (valid, found ∙ ap some (omega arith), get_elem?-map defs i d at)
