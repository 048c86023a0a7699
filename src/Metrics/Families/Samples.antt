-- ===== src/Metrics/Families/Samples.antt =====
-- The samples of protocol modules, from the recorders' calls to the summary. A recorder's shard index
-- is below 16 (NewRecorders); `none` is a panic.
pub mod Summed
pub mod Grown
pub mod Totals
pub mod Summarized
use loadtool.Prelude.{
  ℕ, ◌+◌, ◌/◌, List, [], ◌∷◌, ◌++◌, map, Option, none, some, Bool, true, false, ◌==◌, if◌then◌else◌,
  Bytes, get_elem?, modify, add64,
}
use loadtool.Prelude.Int.{ℤ}
use loadtool.Metrics.Histogram.{Combined, combine}
use loadtool.Metrics.Recorder.{Shard, record_latency}
use loadtool.Metrics.Sampler.{total64}
use loadtool.Metrics.Families.{
  Kind, trend as trend_kind, counter, rate as rate_kind, unknown, Def, Family, Families,
}

-- The calls of a recorder: Trend, Add and Rate.
pub data Call : Type 0 where
  trend : ℕ → ℤ → Bool → Call
  add : ℕ → ℕ → Call
  rate : ℕ → Bool → Call

abbrev pub is_kind : Kind → Kind → Bool
is_kind trend_kind trend_kind = true
is_kind counter counter = true
is_kind rate_kind rate_kind = true
is_kind wanted other = false

-- family: a kind mismatch panics, and so does a number that is no family's.
abbrev pub of_kind : Kind → Option Family → Option Family
of_kind kind none = none
of_kind kind (some fam) = if is_kind kind fam.def.kind then some fam else none

abbrev pub add_slot : ℕ → ℕ → List ℕ → List ℕ
add_slot i n slots = modify slots i (λ c. add64 c n)

abbrev pub record_trend : ℕ → ℤ → Bool → Family → Family
record_trend i d ok fam = record fam { trend = modify fam.trend i (record_latency d ok) }

abbrev pub add_count : ℕ → ℕ → Family → Family
add_count i n fam = record fam { counts = add_slot i n fam.counts }

abbrev pub count_rate : ℕ → Bool → Family → Family
count_rate i v fam = record fam {
  counts = add_slot i 1 fam.counts;
  trues = if v then add_slot i 1 fam.trues else fam.trues;
}

abbrev pub put : Families → ℕ → (Family → Family) → Option Family → Option Families
put f id change none = none
put f id change (some fam) = some (record f { fams = modify f.fams id change })

-- One call of the recorder with shard `i`.
unfoldable pub call : ℕ → Call → Families → Option Families
call i (trend id d ok) f = put f id (record_trend i d ok) (of_kind trend_kind (get_elem? f.fams id))
call i (add id n) f = put f id (add_count i n) (of_kind counter (get_elem? f.fams id))
call i (rate id v) f = put f id (count_rate i v) (of_kind rate_kind (get_elem? f.fams id))

-- A recorder without families drops the samples.
abbrev pub call_of : ℕ → Call → Option Families → Option (Option Families)
call_of i c none = some none
call_of i c (some f) = elim (call i c f) [ none ↦ none | some next ↦ some (some next) ]

-- The calls of all recorders, in the order in which they happen.
unfoldable pub calls : List (ℕ × Call) → Families → Option Families
calls [] f = some f
calls ((i, c) ∷ cs) f = elim (call i c f) [ none ↦ none | some next ↦ calls cs next ]

-- FamilySummary; the percentiles are read off `latency`.
pub record FamilySummary : Type 0 where
  pub name : Bytes
  pub kind : Kind
  pub count : ℕ
  pub failed : ℕ
  pub trues : ℕ
  pub min : ℕ
  pub mean : ℕ
  pub max : ℕ
  pub latency : Option Combined

abbrev pub trend_summary : Def → Combined → Combined → FamilySummary
trend_summary d all failed = record {
  name = d.name;
  kind = d.kind;
  count = all.n;
  failed = failed.n;
  trues = 0;
  min = if all.n == 0 then 0 else all.min_ns;
  mean = if all.n == 0 then 0 else all.sum_ns / all.n;
  max = if all.n == 0 then 0 else all.max_ns;
  latency = if all.n == 0 then none else some all;
}

abbrev pub count_summary : Def → ℕ → ℕ → FamilySummary
count_summary d total trues = record {
  name = d.name;
  kind = d.kind;
  count = total;
  failed = 0;
  trues = trues;
  min = 0;
  mean = 0;
  max = 0;
  latency = none;
}

-- The body of Summarize's loop.
abbrev pub summarize_as : Kind → Family → FamilySummary
summarize_as trend_kind fam =
    trend_summary fam.def
      (combine (map (λ (s : Shard). s.ok) fam.trend ++ map (λ (s : Shard). s.failed) fam.trend))
      (combine (map (λ (s : Shard). s.failed) fam.trend))
summarize_as counter fam = count_summary fam.def (total64 fam.counts) (total64 fam.trues)
summarize_as rate_kind fam = count_summary fam.def (total64 fam.counts) (total64 fam.trues)
summarize_as (unknown k) fam = count_summary fam.def 0 0

unfoldable pub summarize : Families → List FamilySummary
summarize f = map (λ (fam : Family). summarize_as fam.def.kind fam) f.fams
