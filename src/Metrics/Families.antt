-- ===== src/Metrics/Families.antt =====
-- The metric families of a run (internal/metrics/families.go). Names are their bytes; a counter's
-- slots hold int64 values, kept as 64-bit words. The families are one store that the recorders share.
pub mod Declared
pub mod Samples
use loadtool.Prelude.{
  ℕ, suc, ◌+◌, List, [], ◌∷◌, ◌++◌, map, Option, none, some, Bool, true, false, ◌&&◌, ◌||◌, not,
  leb, ltb, ◌==◌, if◌then◌else◌, Bytes, codes, bytes_eq, length, replicate, get_elem?, modify,
  add64,
}
use loadtool.Prelude.Int.{ℤ}
use loadtool.Prelude.Result.{Result, ok, err}
use loadtool.Metrics.Histogram.{Histogram, Combined, combine}
use loadtool.Metrics.Recorder.{Shard, new_shard, num_shards, record_latency}
use loadtool.Metrics.Sampler.{total64}

-- Kind; a definition may hold any int.
pub data Kind : Type 0 where
  trend counter rate : Kind
  unknown : ℤ → Kind

pub record Def : Type 0 where
  pub name : Bytes
  pub kind : Kind

abbrev pub is_lower : ℕ → Bool
is_lower c = leb b'a' c && leb c b'z'

abbrev pub is_word : ℕ → Bool
is_word c = is_lower c || leb b'0' c && leb c b'9'

abbrev pub all_tail : Bytes → Bool
all_tail [] = true
all_tail (c ∷ s) = (is_word c || c == b'_') && all_tail s

-- [a-z0-9_]+
abbrev pub is_tail : Bytes → Bool
is_tail [] = false
is_tail (c ∷ s) = all_tail (c ∷ s)

-- [a-z0-9]*_[a-z0-9_]+
abbrev pub is_rest : Bytes → Bool
is_rest [] = false
is_rest (c ∷ s) = let rest = is_rest s in if c == b'_' then is_tail s else is_word c && rest

-- familyName, ^[a-z][a-z0-9]*_[a-z0-9_]+$
unfoldable pub is_family_name : Bytes → Bool
is_family_name [] = false
is_family_name (c ∷ s) = is_lower c && is_rest s

abbrev pub reserved_names : List Bytes
reserved_names =
    codes "http_reqs"
    ∷ codes "http_req_failed"
    ∷ codes "http_req_duration"
    ∷ codes "http_req_duration_successful"
    ∷ codes "http_protocols"
    ∷ codes "iterations"
    ∷ codes "dropped_iterations"
    ∷ codes "checks"
    ∷ codes "script_errors"
    ∷ []

abbrev pub is_reserved : List Bytes → Bytes → Bool
is_reserved [] s = false
is_reserved (t ∷ ts) s = bytes_eq s t || is_reserved ts s

abbrev pub is_known : Kind → Bool
is_known (unknown k) = false
is_known known = true

pub record Family : Type 0 where
  pub def : Def
  pub trend : List Shard
  pub counts : List ℕ
  pub trues : List ℕ

pub record Families : Type 0 where
  pub fams : List Family
  pub ids : List (Bytes × ℕ)

pub data Problem : Type 0 where
  bad_name reserved_name unknown_kind declared_twice : Bytes → Problem

abbrev pub shards_for : Kind → List Shard
shards_for trend = replicate num_shards new_shard
shards_for other = []

abbrev pub counts_for : Kind → List ℕ
counts_for counter = replicate num_shards 0
counts_for rate = replicate num_shards 0
counts_for other = []

abbrev pub trues_for : Kind → List ℕ
trues_for rate = replicate num_shards 0
trues_for other = []

abbrev pub new_family : Def → Family
new_family d = record {
  def = d;
  trend = shards_for d.kind;
  counts = counts_for d.kind;
  trues = trues_for d.kind;
}

-- The lookup in `ids`.
unfoldable pub find_id : List (Bytes × ℕ) → Bytes → Option ℕ
find_id [] name = none
find_id ((n, id) ∷ ids) name =
    let rest = find_id ids name in if bytes_eq name n then some id else rest

abbrev pub is_some : Option ℕ → Bool
is_some none = false
is_some (some id) = true

-- What is wrong with a definition, given the identifiers so far.
unfoldable pub problem_of : List (Bytes × ℕ) → Def → Option Problem
problem_of ids d =
    if not (is_family_name d.name)
    then some (bad_name d.name)
    else if is_reserved reserved_names d.name
    then some (reserved_name d.name)
    else if not (is_known d.kind)
    then some (unknown_kind d.name)
    else if is_some (find_id ids d.name)
    then some (declared_twice d.name)
    else none

-- The loop of NewFamilies from definition `i` on: the errors, and the identifiers.
unfoldable pub declare : ℕ → List Def → List (Bytes × ℕ) → List Problem × List (Bytes × ℕ)
declare i [] ids = ([], ids)
declare i (d ∷ ds) ids = elim (problem_of ids d) [
  | some why ↦ (let rest = declare (suc i) ds ids in (why ∷ rest.0, rest.1))
  | none ↦ declare (suc i) ds (ids ++ ((d.name, i) ∷ []))
]

abbrev pub finished : List Def → List Problem × List (Bytes × ℕ) → Result (List Problem) Families
finished defs ([], ids) = ok (record { fams = map new_family defs; ids = ids })
finished defs (why ∷ more, ids) = err (why ∷ more)

-- NewFamilies; a family of a refused definition is left out of the result with all the others.
unfoldable pub new_families : List Def → Result (List Problem) Families
new_families defs = finished defs (declare 0 defs [])
