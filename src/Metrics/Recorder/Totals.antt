-- ===== src/Metrics/Recorder/Totals.antt =====
-- The summary's counts against the events of the run.
use native.Mathlib.Nat.{mod-lt, mod-eq_of_lt}
use loadtool.Prelude.{
  ℕ, zero, suc, ◌+◌, ◌%◌, ◌≤◌, ◌<◌, ◌≡◌, refl, sym, ap, subst, ◌∙◌, min, List, [], ◌∷◌, ◌++◌, map,
  true, false, ◌||◌, arith, All, sum, sum-append, sum-take-suc, take-length, length-map, count,
  length, take, get_or, word, ltb, ◌==◌, add64, sub64, Bool-cases, inl, inr,
}
use loadtool.Metrics.Histogram.{Histogram, Combined, combine, combine_from, combine_one, no_samples}
use loadtool.Metrics.Recorder.{Shard, Recorder, World, num_shards}
use loadtool.Metrics.Recorder.Merge.{Summary, contains, add_seen, seen_shards, shard_at, merge}
use loadtool.Metrics.Recorder.Accounts.{
  Event, recorder_of, world_of, is_success, is_sent_failure, is_unsent, is_iteration,
  is_script_error, ok_total, failed_total, addresses_from, Ledger,
}
use loadtool.Metrics.Recorder.Kept.{world_of-Ledger}

-- 0, 1, ..., k-1
abbrev pub upto : ℕ → List ℕ
upto zero = []
upto (suc k) = upto k ++ (k ∷ [])

contains-append : (xs : List ℕ) (b a : ℕ) → contains (xs ++ (b ∷ [])) a ≡ (contains xs a || b == a)
contains-append [] b a = ground arith
contains-append (x ∷ xs) b a = ground (arith, contains-append xs b a)

contains-upto : (k a : ℕ) → contains (upto k) a ≡ ltb a k
contains-upto zero a = ground arith
contains-upto (suc k) a = ground (arith, contains-append (upto k) k a, contains-upto k a)

abbrev pub seen_of : List ℕ → List ℕ → List ℕ
seen_of seen [] = seen
seen_of seen (a ∷ as') = seen_of (add_seen seen a) as'

seen_shards-map :
    (seen : List ℕ) (rs : List Recorder)
    → seen_shards seen rs ≡ seen_of seen (map (λ (r : Recorder). r.shard) rs)
unfolding seen_shards
seen_shards-map seen [] = refl
seen_shards-map seen (r ∷ rs) = seen_shards-map (add_seen seen r.shard) rs

-- From recorder i on, every shard below k that is not seen yet is seen next.
seen_of-upto :
    (i n k : ℕ) → 0 < k → seen_of (upto (min i k)) (addresses_from i n k) ≡ upto (min (i + n) k)
seen_of-upto i zero k p = ap (λ m. upto (min m k)) (omega arith)
seen_of-upto i (suc n) k p =
    step ∙ seen_of-upto (suc i) n k p ∙ ap (λ m. upto (min m k)) (omega arith)
  where
    next : add_seen (upto (min i k)) (i % k) ≡ upto (min (suc i) k)
    next = elim (Bool-cases (ltb i k)) [
      | inl e ↦
          let lt : i < k = ground arith in
          let m : i % k ≡ i = mod-eq_of_lt lt in
          let a : min i k ≡ i = omega arith in
          let b : min (suc i) k ≡ suc i = omega arith in
          let c : contains (upto i) i ≡ false = ground (arith, contains-upto i i) in rw (m, a, b, c)
      | inr e ↦
          let a : min i k ≡ k = ground arith in
          let b : min (suc i) k ≡ k = ground arith in
          let c : contains (upto k) (i % k) ≡ true =
            ground (arith, contains-upto k (i % k), mod-lt i {m = k} p) in
          rw (a, b, c)
    ]

    step :
        seen_of (add_seen (upto (min i k)) (i % k)) (addresses_from (suc i) n k)
        ≡ seen_of (upto (min (suc i) k)) (addresses_from (suc i) n k)
    step = ap (λ s. seen_of s (addresses_from (suc i) n k)) next

get_or-map :
    (f : Shard → ℕ) (shs : List Shard) (a : ℕ)
    → a < length shs
    → f (shard_at shs a) ≡ get_or (map f shs) a 0
get_or-map f [] a h = absurd (omega arith)
get_or-map f (sh ∷ shs) zero h = refl
get_or-map f (sh ∷ shs) (suc a) h = get_or-map f shs a (omega arith)

sum-map-snoc :
    (f : ℕ → ℕ) (as' : List ℕ) (a : ℕ) → sum (map f (as' ++ (a ∷ []))) ≡ sum (map f as') + f a
sum-map-snoc f [] a = omega arith
sum-map-snoc f (b ∷ bs) a = omega (arith, sum-map-snoc f bs a)

sum-upto :
    (f : Shard → ℕ) (shs : List Shard) (k : ℕ)
    → k ≤ length shs
    → sum (map (λ a. f (shard_at shs a)) (upto k)) ≡ sum (take k (map f shs))
sum-upto f shs zero h = refl
sum-upto f shs (suc k) h = omega (
  arith,
  sum-map-snoc (λ a. f (shard_at shs a)) (upto k) k,
  sum-upto f shs k (omega arith),
  sum-take-suc (map f shs) k,
  get_or-map f shs k (omega arith),
)

sum-upto_all :
    (f : Shard → ℕ) (shs : List Shard) (k : ℕ)
    → k ≡ length shs
    → sum (map (λ a. f (shard_at shs a)) (upto k)) ≡ sum (map f shs)
sum-upto_all f shs k h =
    sum-upto f shs k (omega arith)
    ∙ ap (λ m. sum (take m (map f shs))) (h ∙ sym (length-map shs f))
    ∙ ap sum (take-length (map f shs))

combine_from-n :
    (c : Combined) (hs : List Histogram)
    → c.n < word
    → (combine_from c hs).n ≡ (c.n + sum (map (λ (h : Histogram). h.n) hs)) % word
unfolding combine_from combine_one add64
combine_from-n c [] b = omega arith
combine_from-n c (h ∷ hs) b = omega (arith, combine_from-n (combine_one c h) hs (omega arith))

combine-n : (hs : List Histogram) → (combine hs).n ≡ sum (map (λ (h : Histogram). h.n) hs) % word
unfolding combine no_samples
combine-n hs = omega (arith, combine_from-n no_samples hs (omega arith))

-- Every event is counted at most once.
counted-le :
    (es : List Event)
    → count is_success es + count is_sent_failure es + count is_unsent es ≤ length es
counted-le [] = omega arith
counted-le (Event.sent i d true ∷ es) = omega (arith, counted-le es)
counted-le (Event.sent i d false ∷ es) = omega (arith, counted-le es)
counted-le (Event.unsent i ∷ es) = omega (arith, counted-le es)
counted-le (Event.iteration i ∷ es) = omega (arith, counted-le es)
counted-le (Event.status i c ∷ es) = omega (arith, counted-le es)
counted-le (Event.protocol i p ∷ es) = omega (arith, counted-le es)
counted-le (Event.script_error i m ∷ es) = omega (arith, counted-le es)
counted-le (Event.check i n p e ∷ es) = omega (arith, counted-le es)

map-map :
    (f : Histogram → ℕ) (g : ℕ → Histogram) (xs : List ℕ) → map f (map g xs) ≡ map (λ a. f (g a)) xs
map-map f g [] = refl
map-map f g (x ∷ xs) = ap (λ ys. f (g x) ∷ ys) (map-map f g xs)

map-append : (f : Histogram → ℕ) (xs ys : List Histogram) → map f (xs ++ ys) ≡ map f xs ++ map f ys
map-append f [] ys = refl
map-append f (x ∷ xs) ys = ap (λ zs. f x ∷ zs) (map-append f xs ys)

-- What a summary says of the events of the run.
pub record Accounts (es : List Event) (s : Summary) : Type 0 where
  pub successes : s.successes ≡ count is_success es
  pub sent : s.sent ≡ count is_success es + count is_sent_failure es
  pub failures : s.failures ≡ count is_sent_failure es + count is_unsent es
  pub requests : s.requests ≡ s.successes + s.failures
  pub iterations : s.iterations ≡ count is_iteration es
  pub script_errors : s.script_errors ≡ count is_script_error es

seen-upto :
    (n : ℕ) (es : List Event) (w : World)
    → 0 < n
    → Ledger n es w
    → seen_shards [] w.recorders ≡ upto (length w.shards)
seen-upto n es w p v =
    let k = min n num_shards in
    let q : 0 < k = omega arith in
    let z : min 0 k ≡ 0 = omega arith in
    let m : min (0 + n) k ≡ length w.shards = omega (arith, v.sized) in
    let s = seen_of-upto 0 n k q in
    let s' = subst (λ m. seen_of (upto m) (addresses_from 0 n k) ≡ upto (min (0 + n) k)) z s in
    seen_shards-map [] w.recorders ∙ ap (λ ks. seen_of [] ks) v.placed ∙ s' ∙ ap upto m

-- The sums that combine is left with over all shards.
shard-sums :
    (w : World)
    → (sum (
          map
            (λ (h : Histogram). h.n)
            (map (λ a. (shard_at w.shards a).ok) (upto (length w.shards))))
        ≡ ok_total w)
      × (sum (
            map
              (λ (h : Histogram). h.n)
              (map (λ a. (shard_at w.shards a).failed) (upto (length w.shards))))
          ≡ failed_total w)
shard-sums w = (
  ap sum (map-map (λ (h : Histogram). h.n) (λ a. (shard_at w.shards a).ok) (upto (length w.shards)))
      ∙ sum-upto_all (λ (sh : Shard). sh.ok.n) w.shards (length w.shards) refl,
  ap sum (
        map-map (λ (h : Histogram). h.n) (λ a. (shard_at w.shards a).failed)
          (upto (length w.shards)))
      ∙ sum-upto_all (λ (sh : Shard). sh.failed.n) w.shards (length w.shards) refl,
)

merge-Accounts_of :
    (n : ℕ) (es : List Event) (w : World)
    → 0 < n
    → length es < word
    → Ledger n es w
    → Accounts es (merge w)
unfolding merge add64 sub64
merge-Accounts_of n es w p fits v =
    let e = seen-upto n es w p v in
    let (so, sf) = shard-sums w in
    let oks = map (λ a. (shard_at w.shards a).ok) (upto (length w.shards)) in
    let faileds = map (λ a. (shard_at w.shards a).failed) (upto (length w.shards)) in
    let c1 = combine-n oks in
    let c2 = combine-n (oks ++ faileds) in
    let a =
      ap sum (map-append (λ (h : Histogram). h.n) oks faileds)
      ∙ sum-append (map (λ (h : Histogram). h.n) oks) (map (λ (h : Histogram). h.n) faileds) in
    let le = counted-le es in
    let ok_n : (combine oks).n ≡ count is_success es = omega (arith, v.oks) in
    let all_n : (combine (oks ++ faileds)).n ≡ count is_success es + count is_sent_failure es =
      omega (arith, v.oks, v.faileds) in
    rw e (record {
      successes = ok_n;
      sent = all_n;
      failures = omega (arith, v.unsents);
      requests = omega (arith, v.unsents);
      iterations = v.iterations;
      script_errors = v.script_errors;
    })

-- After any fewer than 2^64 events of the recorders of a run with at least one VU, in any order and
-- with statuses, protocols and checks among them: the summary's Successes, Sent and Failures are the numbers of requests that succeeded, that were sent,
-- and that failed or were never sent. Requests is Successes plus Failures, and Iterations and
-- ScriptErrors are the numbers of those events.
pub merge-Accounts :
    (n : ℕ) (es : List Event)
    → 0 < n
    → length es < word
    → All (λ e. recorder_of e < n) es
    → Accounts es (merge (world_of n es))
merge-Accounts n es p fits h =
    merge-Accounts_of n es (world_of n es) p fits (world_of-Ledger n es h)
