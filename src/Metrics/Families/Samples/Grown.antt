-- ===== src/Metrics/Families/Samples/Grown.antt =====
-- One family through the calls of a run.
use loadtool.Prelude.{
  ℕ, zero, suc, ◌+◌, ◌%◌, ◌<◌, List, [], ◌∷◌, Option, none, some, Bool, true, false, ◌&&◌, not,
  ◌==◌, ◌≡◌, ◌≢◌, refl, sym, ◌∙◌, subst, ap, arith, if◌then◌else◌, get_elem?, modify, add64, sum,
  word, length, length-modify, some_inj,
}
use loadtool.Prelude.Int.{ℤ}
use loadtool.Metrics.Recorder.{record_latency, num_shards}
use loadtool.Metrics.Families.{
  Kind, trend as trend_kind, counter, rate as rate_kind, unknown, Family, Families,
}
use loadtool.Metrics.Families.Samples.{
  Call, trend, add, rate, put, of_kind, is_kind, record_trend, add_count, count_rate,
}
use loadtool.Metrics.Families.Samples.Summed.{oks, fails, one, sum-add_slot, modify-record_latency}

-- What a call adds to the counts, the true samples, and the ok and failed durations of family `id`.
abbrev pub to_counts : ℕ → Call → ℕ
to_counts id (trend j d ok) = 0
to_counts id (add j n) = if j == id then n else 0
to_counts id (rate j v) = one (j == id)

abbrev pub to_trues : ℕ → Call → ℕ
to_trues id (rate j v) = one (j == id && v)
to_trues id other = 0

abbrev pub to_oks : ℕ → Call → ℕ
to_oks id (trend j d ok) = one (j == id && ok)
to_oks id other = 0

abbrev pub to_fails : ℕ → Call → ℕ
to_fails id (trend j d ok) = one (j == id && not ok)
to_fails id other = 0

-- The slots and shards that a family of a kind has.
abbrev pub Sized : Kind → Family → Type 0
Sized trend_kind fam = length fam.trend ≡ num_shards
Sized counter fam = length fam.counts ≡ num_shards
Sized rate_kind fam = (length fam.counts ≡ num_shards) × (length fam.trues ≡ num_shards)
Sized (unknown k) fam = Unit

-- A family of a kind with these totals, each up to wrap-around.
abbrev pub Filled : Kind → ℕ → ℕ → ℕ → ℕ → Family → Type 0
Filled k a b t g fam =
    (fam.def.kind ≡ k)
    × Sized k fam
    × (sum fam.counts % word ≡ a % word)
    × (sum fam.trues % word ≡ b % word)
    × (oks fam.trend % word ≡ t % word)
    × (fails fam.trend % word ≡ g % word)

abbrev pub HeldAt : (Family → Type 0) → List Family → ℕ → Type 0
HeldAt P fams id = (fam : Family) × (get_elem? fams id ≡ some fam) × P fam

pub modify-HeldAt :
    (P Q : Family → Type 0) (fams : List Family) (j id : ℕ) (change : Family → Family)
    → (j ≡ id → (fam : Family) → get_elem? fams j ≡ some fam → P fam → Q (change fam))
    → (j ≢ id → (fam : Family) → P fam → Q fam)
    → HeldAt P fams id
    → HeldAt Q (modify fams j change) id
modify-HeldAt P Q [] j id change same other (fam, h, p) = absurd (cc h)
modify-HeldAt P Q (f ∷ fams) zero zero change same other (fam, h, p) =
    (change f, refl, same refl f refl (subst P (some_inj (sym h)) p))
modify-HeldAt P Q (f ∷ fams) zero (suc id) change same other (fam, h, p) =
    (fam, h, other (λ e. absurd (omega (arith, e))) fam p)
modify-HeldAt P Q (f ∷ fams) (suc j) zero change same other (fam, h, p) =
    (fam, h, other (λ e. absurd (omega (arith, e))) fam p)
modify-HeldAt P Q (f ∷ fams) (suc j) (suc id) change same other h =
    modify-HeldAt P Q fams j id change (λ e. same (ap suc e))
      (λ n. other (λ e. n (omega (arith, e)))) h

pub put-eq-some :
    (f next : Families) (j : ℕ) (change : Family → Family) (kind : Kind)
    → put f j change (of_kind kind (get_elem? f.fams j)) ≡ some next
    → (fam : Family) × (get_elem? f.fams j ≡ some fam)
      × (is_kind kind fam.def.kind ≡ true)
      × (record f { fams = modify f.fams j change } ≡ next)
put-eq-some f next j change kind h = found (get_elem? f.fams j) refl h
  where
    kept :
        (b : Bool) (fam : Family)
        → put f j change (if b then some fam else none) ≡ some next
        → (b ≡ true) × (record f { fams = modify f.fams j change } ≡ next)
    kept true fam h = (refl, some_inj h)
    kept false fam h = absurd (cc h)

    found :
        (o : Option Family)
        → get_elem? f.fams j ≡ o
        → put f j change (of_kind kind o) ≡ some next
        → (fam : Family) × (get_elem? f.fams j ≡ some fam)
          × (is_kind kind fam.def.kind ≡ true)
          × (record f { fams = modify f.fams j change } ≡ next)
    found none e h = absurd (cc h)
    found (some fam) e h =
        let (same, result) = kept (is_kind kind fam.def.kind) fam h in (fam, e, same, result)

Sized-trend :
    (k : Kind) (fam : Family)
    → is_kind trend_kind k ≡ true
    → Sized k fam
    → length fam.trend ≡ num_shards
Sized-trend trend_kind fam h s = s
Sized-trend counter fam h s = absurd (cc h)
Sized-trend rate_kind fam h s = absurd (cc h)
Sized-trend (unknown u) fam h s = absurd (cc h)

Sized-counter :
    (k : Kind) (fam : Family)
    → is_kind counter k ≡ true
    → Sized k fam
    → length fam.counts ≡ num_shards
Sized-counter trend_kind fam h s = absurd (cc h)
Sized-counter counter fam h s = s
Sized-counter rate_kind fam h s = absurd (cc h)
Sized-counter (unknown u) fam h s = absurd (cc h)

Sized-rate :
    (k : Kind) (fam : Family)
    → is_kind rate_kind k ≡ true
    → Sized k fam
    → (length fam.counts ≡ num_shards) × (length fam.trues ≡ num_shards)
Sized-rate trend_kind fam h s = absurd (cc h)
Sized-rate counter fam h s = absurd (cc h)
Sized-rate rate_kind fam h s = s
Sized-rate (unknown u) fam h s = absurd (cc h)

-- The slots keep their number.
Sized-change :
    (k : Kind) (fam next : Family)
    → length next.trend ≡ length fam.trend
    → length next.counts ≡ length fam.counts
    → length next.trues ≡ length fam.trues
    → Sized k fam
    → Sized k next
Sized-change trend_kind fam next a b c s = a ∙ s
Sized-change counter fam next a b c s = b ∙ s
Sized-change rate_kind fam next a b c (s, u) = (b ∙ s, c ∙ u)
Sized-change (unknown k) fam next a b c s = tt

module _ (i : ℕ) (short : i < num_shards) (k : Kind) (a b t g : ℕ) (fam : Family) where
  pub record_trend-Filled :
      (d : ℤ) (ok : Bool)
      → is_kind trend_kind fam.def.kind ≡ true
      → Filled k a b t g fam
      → Filled k (a + 0) (b + 0) (t + one ok) (g + one (not ok)) (record_trend i d ok fam)
  record_trend-Filled d ok kind (same, sized, ca, cb, ct, cg) =
      let long = Sized-trend k fam (subst (λ x. is_kind trend_kind x ≡ true) same kind) sized in
      let (u, v) = modify-record_latency fam.trend i d ok (omega (arith, long, short)) in
      (
        same,
        Sized-change k fam (record_trend i d ok fam)
            (length-modify fam.trend i (record_latency d ok)) refl refl sized,
        omega (arith, ca),
        omega (arith, cb),
        omega (arith, u, ct),
        omega (arith, v, cg),
      )

  pub add_count-Filled :
      (n : ℕ)
      → is_kind counter fam.def.kind ≡ true
      → Filled k a b t g fam
      → Filled k (a + n) (b + 0) (t + 0) (g + 0) (add_count i n fam)
  add_count-Filled n kind (same, sized, ca, cb, ct, cg) =
      let long = Sized-counter k fam (subst (λ x. is_kind counter x ≡ true) same kind) sized in
      let u = sum-add_slot fam.counts i n (omega (arith, long, short)) in
      (
        same,
        Sized-change k fam (add_count i n fam) refl (length-modify fam.counts i (λ c. add64 c n))
            refl sized,
        omega (arith, u, ca),
        omega (arith, cb),
        omega (arith, ct),
        omega (arith, cg),
      )

  pub count_rate-Filled :
      (v : Bool)
      → is_kind rate_kind fam.def.kind ≡ true
      → Filled k a b t g fam
      → Filled k (a + 1) (b + one v) (t + 0) (g + 0) (count_rate i v fam)
  count_rate-Filled true kind (same, sized, ca, cb, ct, cg) =
      let (long, longer) =
        Sized-rate k fam (subst (λ x. is_kind rate_kind x ≡ true) same kind) sized in
      let u = sum-add_slot fam.counts i 1 (omega (arith, long, short)) in
      let w = sum-add_slot fam.trues i 1 (omega (arith, longer, short)) in
      (
        same,
        Sized-change k fam (count_rate i true fam) refl
            (length-modify fam.counts i (λ c. add64 c 1))
            (length-modify fam.trues i (λ c. add64 c 1)) sized,
        omega (arith, u, ca),
        omega (arith, w, cb),
        omega (arith, ct),
        omega (arith, cg),
      )
  count_rate-Filled false kind (same, sized, ca, cb, ct, cg) =
      let (long, longer) =
        Sized-rate k fam (subst (λ x. is_kind rate_kind x ≡ true) same kind) sized in
      let u = sum-add_slot fam.counts i 1 (omega (arith, long, short)) in
      (
        same,
        Sized-change k fam (count_rate i false fam) refl
            (length-modify fam.counts i (λ c. add64 c 1)) refl sized,
        omega (arith, u, ca),
        omega (arith, cb),
        omega (arith, ct),
        omega (arith, cg),
      )

  pub Filled-plus_zero : Filled k a b t g fam → Filled k (a + 0) (b + 0) (t + 0) (g + 0) fam
  Filled-plus_zero (same, sized, ca, cb, ct, cg) =
      (same, sized, omega (arith, ca), omega (arith, cb), omega (arith, ct), omega (arith, cg))

pub equal_test : (j id : ℕ) → j ≡ id → (j == id) ≡ true
equal_test j id h = ground arith

pub apart_test : (j id : ℕ) → j ≢ id → (j == id) ≡ false
apart_test j id h = ground arith
