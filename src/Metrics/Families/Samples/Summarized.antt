-- ===== src/Metrics/Families/Samples/Summarized.antt =====
-- The summary of a family after the samples of a run.
use loadtool.Prelude.{
  ℕ, zero, suc, ◌+◌, ◌%◌, ◌<◌, List, [], ◌∷◌, ◌++◌, map, some, ◌≡◌, refl, sym, subst, ap, arith,
  get_elem?, sum, word, some_inj, All, Bytes,
}
use loadtool.Prelude.Result.{ok}
use loadtool.Metrics.Histogram.{Histogram, combine, no_samples, new_histogram}
use loadtool.Metrics.Recorder.{Shard, new_shard, num_shards}
use loadtool.Metrics.Families.{
  Kind, trend as trend_kind, counter, rate as rate_kind, unknown, Def, Family, Families, new_family,
  new_families,
}
use loadtool.Metrics.Families.Declared.{new_families-finds}
use loadtool.Metrics.Families.Samples.{Call, calls, summarize, summarize_as, FamilySummary}
use loadtool.Metrics.Families.Samples.Summed.{oks, fails, sum-total64, n-combine_from}
use loadtool.Metrics.Families.Samples.Grown.{Filled, to_counts, to_trues, to_oks, to_fails}
use loadtool.Metrics.Families.Samples.Totals.{total, calls-HeldAt}

empty-Filled :
    (name : Bytes) (k : Kind) → Filled k 0 0 0 0 (new_family (record { name = name; kind = k }))
unfolding new_shard new_histogram
empty-Filled name trend_kind = (refl, refl, refl, refl, refl, refl)
empty-Filled name counter = (refl, refl, refl, refl, refl, refl)
empty-Filled name rate_kind = (refl, (refl, refl), refl, refl, refl, refl)
empty-Filled name (unknown u) = (refl, tt, refl, refl, refl, refl)

-- What a summary says of the calls on family `id`: samples and failed samples of a trend, the total of
-- a counter, samples and true samples of a rate, each up to the wrap-around of 64 bits.
abbrev pub Summarizes : Kind → ℕ → List (ℕ × Call) → FamilySummary → Type 0
Summarizes trend_kind id cs s =
    (s.count % word ≡ (total (to_oks id) cs + total (to_fails id) cs) % word)
    × (s.failed % word ≡ total (to_fails id) cs % word)
Summarizes counter id cs s = s.count % word ≡ total (to_counts id) cs % word
Summarizes rate_kind id cs s =
    (s.count % word ≡ total (to_counts id) cs % word)
    × (s.trues % word ≡ total (to_trues id) cs % word)
Summarizes (unknown u) id cs s = Unit

sum_failed :
    (shards : List Shard)
    → sum (map (λ (h : Histogram). h.n) (map (λ (s : Shard). s.failed) shards)) ≡ fails shards
sum_failed [] = refl
sum_failed (s ∷ shards) = omega (arith, sum_failed shards)

sum_both :
    (shards rest : List Shard)
    → sum (
        map
          (λ (h : Histogram). h.n)
          (map (λ (s : Shard). s.ok) shards ++ map (λ (s : Shard). s.failed) rest))
      ≡ oks shards + fails rest
sum_both [] rest = omega (arith, sum_failed rest)
sum_both (s ∷ shards) rest = omega (arith, sum_both shards rest)

Filled-Summarizes :
    (k : Kind) (id : ℕ) (cs : List (ℕ × Call)) (fam : Family)
    → Filled k
        (0 + total (to_counts id) cs)
        (0 + total (to_trues id) cs)
        (0 + total (to_oks id) cs)
        (0 + total (to_fails id) cs)
        fam
    → Summarizes k id cs (summarize_as k fam)
unfolding combine no_samples
Filled-Summarizes trend_kind id cs fam (same, sized, ca, cb, ct, cg) =
    let a =
      n-combine_from no_samples
        (map (λ (s : Shard). s.ok) fam.trend ++ map (λ (s : Shard). s.failed) fam.trend) in
    let b = n-combine_from no_samples (map (λ (s : Shard). s.failed) fam.trend) in
    (
      omega (arith, a, sum_both fam.trend fam.trend, ct, cg),
      omega (arith, b, sum_failed fam.trend, cg),
    )
Filled-Summarizes counter id cs fam (same, sized, ca, cb, ct, cg) =
    omega (arith, sum-total64 fam.counts, ca)
Filled-Summarizes rate_kind id cs fam (same, sized, ca, cb, ct, cg) =
    (omega (arith, sum-total64 fam.counts, ca), omega (arith, sum-total64 fam.trues, cb))
Filled-Summarizes (unknown u) id cs fam h = tt

get_elem?-summary :
    (fams : List Family) (id : ℕ) (fam : Family)
    → get_elem? fams id ≡ some fam
    → get_elem? (map (λ (fam : Family). summarize_as fam.def.kind fam) fams) id
      ≡ some (summarize_as fam.def.kind fam)
get_elem?-summary [] id fam h = absurd (cc h)
get_elem?-summary (f ∷ fams) zero fam h =
    ap (λ (x : Family). some (summarize_as x.def.kind x)) (some_inj h)
get_elem?-summary (f ∷ fams) (suc id) fam h = get_elem?-summary fams id fam h

-- When NewFamilies has accepted the definitions of a run, and the recorders' calls went through, in
-- whatever order and from whatever shards, the summary of every family is in its place and adds up
-- exactly the calls on that family: the samples and the failed samples of a trend, the total of a
-- counter, the samples and the true samples of a rate, each up to the wrap-around of 64 bits.
pub summarize-Summarizes :
    (defs : List Def) (f last : Families) (cs : List (ℕ × Call)) (id : ℕ) (d : Def)
    → new_families defs ≡ ok f
    → get_elem? defs id ≡ some d
    → All (λ (c : ℕ × Call). c.0 < num_shards) cs
    → calls cs f ≡ some last
    → (s : FamilySummary) × (get_elem? (summarize last) id ≡ some s) × Summarizes d.kind id cs s
unfolding summarize
summarize-Summarizes defs f last cs id d made at short ran =
    let (valid, found, place) = new_families-finds defs f id d made at in
    let (fam, there, filled) =
      calls-HeldAt id cs f last d.kind 0 0 0 0 short ran
        (new_family d, place, empty-Filled d.name d.kind) in
    (
      summarize_as fam.def.kind fam,
      get_elem?-summary last.fams id fam there,
      subst (λ k. Summarizes d.kind id cs (summarize_as k fam)) (sym filled.0)
          (Filled-Summarizes d.kind id cs fam filled),
    )
