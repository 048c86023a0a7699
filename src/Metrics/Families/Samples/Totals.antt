-- ===== src/Metrics/Families/Samples/Totals.antt =====
-- The summary of a run's samples.
use loadtool.Prelude.{
  ℕ, ◌+◌, ◌<◌, List, [], ◌∷◌, none, some, true, ◌≡◌, ◌≢◌, sym, ◌∙◌, subst, arith, get_elem?,
  Option-cases, some_inj, inl, inr, All,
}
use loadtool.Metrics.Recorder.{num_shards}
use loadtool.Metrics.Families.{
  Kind, trend as trend_kind, counter, rate as rate_kind, Family, Families,
}
use loadtool.Metrics.Families.Samples.{
  Call, trend, add, rate, call, calls, put, of_kind, is_kind, record_trend, add_count, count_rate,
}
use loadtool.Metrics.Families.Samples.Grown.{
  Filled, HeldAt, to_counts, to_trues, to_oks, to_fails, modify-HeldAt, put-eq-some,
  record_trend-Filled, add_count-Filled, count_rate-Filled, Filled-plus_zero, equal_test,
  apart_test,
}

put-HeldAt :
    (P Q : Family → Type 0) (f next : Families) (j id : ℕ) (change : Family → Family) (kind : Kind)
    → put f j change (of_kind kind (get_elem? f.fams j)) ≡ some next
    → (j ≡ id → (fam : Family) → is_kind kind fam.def.kind ≡ true → P fam → Q (change fam))
    → (j ≢ id → (fam : Family) → P fam → Q fam)
    → HeldAt P f.fams id
    → HeldAt Q next.fams id
put-HeldAt P Q f next j id change kind h same other held =
    let (fam, at, right, result) = put-eq-some f next j change kind h in
    subst (λ x. HeldAt Q x.fams id) result
      (modify-HeldAt P Q f.fams j id change
        (λ e s found p.
          same e s (subst (λ x. is_kind kind x.def.kind ≡ true) (some_inj (sym at ∙ found)) right)
            p)
        other held)

-- What one call adds to the family of a number.
call-HeldAt :
    (i id : ℕ) (c : Call) (f next : Families) (k : Kind) (a b t g : ℕ)
    → i < num_shards
    → call i c f ≡ some next
    → HeldAt (Filled k a b t g) f.fams id
    → HeldAt
        (Filled k (a + to_counts id c) (b + to_trues id c) (t + to_oks id c) (g + to_fails id c))
        next.fams
        id
unfolding call
call-HeldAt i id (trend j d ok) f next k a b t g short h held =
    put-HeldAt _ _ f next j id (record_trend i d ok) trend_kind h
      (λ e fam kind p.
        rw (equal_test j id e) (record_trend-Filled i short k a b t g fam d ok kind p))
      (λ n fam p. rw (apart_test j id n) (Filled-plus_zero i short k a b t g fam p)) held
call-HeldAt i id (add j n) f next k a b t g short h held =
    put-HeldAt _ _ f next j id (add_count i n) counter h
      (λ e fam kind p. rw (equal_test j id e) (add_count-Filled i short k a b t g fam n kind p))
      (λ n fam p. rw (apart_test j id n) (Filled-plus_zero i short k a b t g fam p)) held
call-HeldAt i id (rate j v) f next k a b t g short h held =
    put-HeldAt _ _ f next j id (count_rate i v) rate_kind h
      (λ e fam kind p. rw (equal_test j id e) (count_rate-Filled i short k a b t g fam v kind p))
      (λ n fam p. rw (apart_test j id n) (Filled-plus_zero i short k a b t g fam p)) held

-- The sums over the calls of a run.
abbrev pub total : (Call → ℕ) → List (ℕ × Call) → ℕ
total measure [] = 0
total measure ((i, c) ∷ cs) = measure c + total measure cs

Filled-plus :
    (k : Kind) (a b t g x y z w x' y' z' w' : ℕ) (fam : Family)
    → Filled k (a + x + x') (b + y + y') (t + z + z') (g + w + w') fam
    → Filled k (a + (x + x')) (b + (y + y')) (t + (z + z')) (g + (w + w')) fam
Filled-plus k a b t g x y z w x' y' z' w' fam (same, sized, ca, cb, ct, cg) =
    (same, sized, omega (arith, ca), omega (arith, cb), omega (arith, ct), omega (arith, cg))

pub calls-HeldAt :
    (id : ℕ) (cs : List (ℕ × Call)) (f last : Families) (k : Kind) (a b t g : ℕ)
    → All (λ (c : ℕ × Call). c.0 < num_shards) cs
    → calls cs f ≡ some last
    → HeldAt (Filled k a b t g) f.fams id
    → HeldAt
        (Filled k
          (a + total (to_counts id) cs)
          (b + total (to_trues id) cs)
          (t + total (to_oks id) cs)
          (g + total (to_fails id) cs))
        last.fams
        id
unfolding calls
calls-HeldAt id [] f last k a b t g short h (fam, at, p) =
    subst (λ x. HeldAt (Filled k (a + 0) (b + 0) (t + 0) (g + 0)) x.fams id) (some_inj h)
      (fam, at, plus_zero p)
  where
    plus_zero : Filled k a b t g fam → Filled k (a + 0) (b + 0) (t + 0) (g + 0) fam
    plus_zero (same, sized, ca, cb, ct, cg) =
        (same, sized, omega (arith, ca), omega (arith, cb), omega (arith, ct), omega (arith, cg))
calls-HeldAt id ((i, c) ∷ cs) f last k a b t g (short, shorts) h held =
    elim (Option-cases (call i c f)) [
      | inl e ↦ (let no : none ≡ some last = rw (e, calls) at h in absurd (cc no))
      | inr (next, e) ↦
          let h' : calls cs next ≡ some last = rw (e, calls) at h in
          let first = call-HeldAt i id c f next k a b t g short e held in
          let (fam, at, p) = calls-HeldAt id cs next last k _ _ _ _ shorts h' first in
          (fam, at, Filled-plus k a b t g _ _ _ _ _ _ _ _ fam p)
    ]
