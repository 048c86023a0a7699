-- ===== src/Metrics/Recorder/Kept.antt =====
-- Every method of a recorder keeps the ledger.
use Prim.Native.String.{String}
use native.Mathlib.Nat.{mod-lt}
use loadtool.Prelude.{
  ℕ, zero, suc, ◌+◌, ◌%◌, ◌<◌, ◌≡◌, refl, sym, ap, ◌∙◌, min, List, [], ◌∷◌, map, length-map, Bool,
  true, false, arith, All, sum, count, length, modify, length-modify, replicate, length-replicate,
  get_or, word, Option, none, some, add64,
}
use loadtool.Prelude.Int.{ℤ}
use loadtool.Metrics.Histogram.{record_ns, new_histogram}
use loadtool.Metrics.Recorder.{
  Shard, new_shard, Recorder, World, num_shards, new_recorder, recorders_from, new_recorders,
  shard_of, record_latency, record_sent, record_unsent, record_status, count_status,
  record_protocol, record_iteration, record_script_error, record_check, record_check_with, check_at,
  cache_check, lookup_index, index_of, index_from,
}
use loadtool.Metrics.Recorder.Accounts.{
  Event, sent, unsent, iteration, status, protocol, script_error, check, recorder_of, happen,
  world_of, is_success, is_sent_failure, is_unsent, is_iteration, is_script_error, addresses_from,
  Ledger, sum-modify, sum-modify_mod, map-modify, get_or-addresses, length-addresses, shard_of-get,
}

-- A recorder's shard is in the store.
shard_of-lt :
    (n i : ℕ) (es : List Event) (w : World)
    → Ledger n es w
    → i < n
    → shard_of w.recorders i < length w.shards
shard_of-lt n i es w v h =
    let k = min n num_shards in
    let e : shard_of w.recorders i ≡ i % k =
      shard_of-get w.recorders i
      ∙ ap (λ ks. get_or ks i 0) v.placed
      ∙ get_or-addresses 0 n k i h
      ∙ ap (λ m. m % k) (omega arith) in
    let p : 0 < k = omega arith in omega (arith, e, v.sized, mod-lt i {m = k} p)

sent-Ledger :
    (n i : ℕ) (d : ℤ) (ok : Bool) (es : List Event) (w : World)
    → i < n
    → Ledger n es w
    → Ledger n (sent i d ok ∷ es) (record_sent w i d ok)
unfolding record_sent record_ns add64
sent-Ledger n i d true es w h v =
    let j = shard_of w.recorders i in
    let lt = shard_of-lt n i es w v h in
    record {
      sized = length-modify w.shards j (record_latency d true) ∙ v.sized;
      placed = v.placed;
      oks = omega (
        arith,
        v.oks,
        sum-modify_mod w.shards j 1 (λ (sh : Shard). sh.ok.n) (record_latency d true) lt
            (λ sh. omega arith),
      );
      faileds = omega (
        arith,
        v.faileds,
        sum-modify_mod w.shards j 0 (λ (sh : Shard). sh.failed.n) (record_latency d true) lt
            (λ sh. omega arith),
      );
      unsents = omega (arith, v.unsents);
      iterations = omega (arith, v.iterations);
      script_errors = omega (arith, v.script_errors);
    }
sent-Ledger n i d false es w h v =
    let j = shard_of w.recorders i in
    let lt = shard_of-lt n i es w v h in
    record {
      sized = length-modify w.shards j (record_latency d false) ∙ v.sized;
      placed = v.placed;
      oks = omega (
        arith,
        v.oks,
        sum-modify_mod w.shards j 0 (λ (sh : Shard). sh.ok.n) (record_latency d false) lt
            (λ sh. omega arith),
      );
      faileds = omega (
        arith,
        v.faileds,
        sum-modify_mod w.shards j 1 (λ (sh : Shard). sh.failed.n) (record_latency d false) lt
            (λ sh. omega arith),
      );
      unsents = omega (arith, v.unsents);
      iterations = omega (arith, v.iterations);
      script_errors = omega (arith, v.script_errors);
    }

status-Ledger :
    (n i : ℕ) (c : ℤ) (es : List Event) (w : World)
    → Ledger n es w
    → Ledger n (status i c ∷ es) (record_status w i c)
unfolding record_status
status-Ledger n i c es w v =
    let j = shard_of w.recorders i in
    record {
      sized = length-modify w.shards j (count_status c) ∙ v.sized;
      placed = v.placed;
      oks = omega (
        arith,
        v.oks,
        ap sum (map-modify w.shards j (λ (sh : Shard). sh.ok.n) (count_status c) (λ sh. refl)),
      );
      faileds = omega (
        arith,
        v.faileds,
        ap sum (map-modify w.shards j (λ (sh : Shard). sh.failed.n) (count_status c) (λ sh. refl)),
      );
      unsents = omega (arith, v.unsents);
      iterations = omega (arith, v.iterations);
      script_errors = omega (arith, v.script_errors);
    }

-- How much a change of recorder adds to each count.
abbrev pub Adds : (Recorder → Recorder) → ℕ → ℕ → ℕ → Type 0
Adds g u t e =
    (r : Recorder)
    → ((g r).shard ≡ r.shard)
      × ((g r).unsent ≡ r.unsent + u)
      × ((g r).iterations ≡ r.iterations + t)
      × ((g r).script_errors ≡ r.script_errors + e)

length-recorders : (n : ℕ) (es : List Event) (w : World) → Ledger n es w → length w.recorders ≡ n
length-recorders n es w v =
    sym (length-map w.recorders (λ (r : Recorder). r.shard))
    ∙ ap length v.placed
    ∙ length-addresses 0 n (min n num_shards)

-- The recorders behind a change of one of them, in a world with the same shards.
changed-Ledger :
    (n i u t e : ℕ) (ev : Event) (es : List Event) (w : World) (ns : List String)
    (g : Recorder → Recorder)
    → i < n
    → Adds g u t e
    → (is_success ev ≡ false) × (is_sent_failure ev ≡ false)
    → (count is_unsent (ev ∷ []) ≡ u)
      × (count is_iteration (ev ∷ []) ≡ t)
      × (count is_script_error (ev ∷ []) ≡ e)
    → Ledger n es w
    → Ledger n (ev ∷ es) (record w { names = ns; recorders = modify w.recorders i g })
changed-Ledger n i u t e ev es w ns g h a (so, fo) (eu, et, ee) v =
    let lt : i < length w.recorders = omega (arith, length-recorders n es w v) in
    record {
      sized = v.sized;
      placed = map-modify w.recorders i (λ (r : Recorder). r.shard) g (λ r. (a r).0) ∙ v.placed;
      oks = ground (arith, v.oks);
      faileds = ground (arith, v.faileds);
      unsents = omega (
        arith,
        eu,
        v.unsents,
        sum-modify w.recorders i u (λ (r : Recorder). r.unsent) g lt (λ r. (a r).1),
      );
      iterations = omega (
        arith,
        et,
        v.iterations,
        sum-modify w.recorders i t (λ (r : Recorder). r.iterations) g lt (λ r. (a r).2),
      );
      script_errors = omega (
        arith,
        ee,
        v.script_errors,
        sum-modify w.recorders i e (λ (r : Recorder). r.script_errors) g lt (λ r. (a r).3),
      );
    }

none_added : (k : ℕ) → k ≡ k + 0
none_added k = omega arith

one_added : (k : ℕ) → k + 1 ≡ k + 1
one_added k = refl

check_with-Ledger :
    (found : Option ℕ) (n i : ℕ) (name : String) (p : Bool) (m : String) (es : List Event)
    (w : World)
    → i < n
    → Ledger n es w
    → Ledger n (check i name p m ∷ es) (record_check_with found w i name p m)
check_with-Ledger (some j) n i name p m es w h v =
    changed-Ledger n i 0 0 0 (check i name p m) es w w.names (check_at j p m) h
      (λ r. (refl, none_added _, none_added _, none_added _)) (refl, refl) (refl, refl, refl) v
check_with-Ledger none n i name p m es w h v =
    let (j, names) = index_from 0 name w.names in
    changed-Ledger n i 0 0 0 (check i name p m) es w names
      (λ r. check_at j p m (cache_check name j r)) h
      (λ r. (refl, none_added _, none_added _, none_added _)) (refl, refl) (refl, refl, refl) v

check-Ledger :
    (n i : ℕ) (name : String) (p : Bool) (m : String) (es : List Event) (w : World)
    → i < n
    → Ledger n es w
    → Ledger n (check i name p m ∷ es) (record_check w i name p m)
unfolding record_check
check-Ledger n i name p m es w h v =
    check_with-Ledger (lookup_index (index_of w.recorders i) name) n i name p m es w h v

happen-Ledger :
    (n : ℕ) (e : Event) (es : List Event) (w : World)
    → recorder_of e < n
    → Ledger n es w
    → Ledger n (e ∷ es) (happen e w)
unfolding record_unsent record_iteration record_protocol record_script_error
happen-Ledger n (sent i d ok) es w h v = sent-Ledger n i d ok es w h v
happen-Ledger n (status i c) es w h v = status-Ledger n i c es w v
happen-Ledger n (check i name p m) es w h v = check-Ledger n i name p m es w h v
happen-Ledger n (unsent i) es w h v =
    changed-Ledger n i 1 0 0 (unsent i) es w w.names _ h
      (λ r. (refl, refl, none_added _, none_added _)) (refl, refl) (refl, refl, refl) v
happen-Ledger n (iteration i) es w h v =
    changed-Ledger n i 0 1 0 (iteration i) es w w.names _ h
      (λ r. (refl, none_added _, refl, none_added _)) (refl, refl) (refl, refl, refl) v
happen-Ledger n (protocol i p) es w h v =
    changed-Ledger n i 0 0 0 (protocol i p) es w w.names _ h
      (λ r. (refl, none_added _, none_added _, none_added _)) (refl, refl) (refl, refl, refl) v
happen-Ledger n (script_error i m) es w h v =
    changed-Ledger n i 0 0 1 (script_error i m) es w w.names _ h
      (λ r. (refl, none_added _, none_added _, refl)) (refl, refl) (refl, refl, refl) v

fresh-shards : (f : Shard → ℕ) (k : ℕ) → f new_shard ≡ 0 → sum (map f (replicate k new_shard)) ≡ 0
fresh-shards f zero e = refl
fresh-shards f (suc k) e = omega (arith, e, fresh-shards f k e)

fresh-recorders :
    (f : Recorder → ℕ) (i n k : ℕ)
    → ((a : ℕ) → f (new_recorder a) ≡ 0)
    → sum (map f (recorders_from i n k)) ≡ 0
unfolding recorders_from
fresh-recorders f i zero k e = refl
fresh-recorders f i (suc n) k e = omega (arith, e (i % k), fresh-recorders f (suc i) n k e)

fresh-addresses :
    (i n k : ℕ) → map (λ (r : Recorder). r.shard) (recorders_from i n k) ≡ addresses_from i n k
unfolding recorders_from new_recorder
fresh-addresses i zero k = refl
fresh-addresses i (suc n) k = ap (λ ks. i % k ∷ ks) (fresh-addresses (suc i) n k)

new_recorders-Ledger : (n : ℕ) → Ledger n [] (new_recorders n)
unfolding new_recorders new_shard new_histogram new_recorder
new_recorders-Ledger n =
    let k = min n num_shards in
    record {
      sized = length-replicate k new_shard;
      placed = fresh-addresses 0 n k;
      oks = ap (λ m. m % word) (fresh-shards (λ sh. sh.ok.n) k refl);
      faileds = ap (λ m. m % word) (fresh-shards (λ sh. sh.failed.n) k refl);
      unsents = fresh-recorders (λ r. r.unsent) 0 n k (λ a. refl);
      iterations = fresh-recorders (λ r. r.iterations) 0 n k (λ a. refl);
      script_errors = fresh-recorders (λ r. r.script_errors) 0 n k (λ a. refl);
    }

-- Behind any events of the run's recorders the ledger holds.
pub world_of-Ledger :
    (n : ℕ) (es : List Event) → All (λ e. recorder_of e < n) es → Ledger n es (world_of n es)
world_of-Ledger n [] h = new_recorders-Ledger n
world_of-Ledger n (e ∷ es) (h, hs) =
    happen-Ledger n e es (world_of n es) h (world_of-Ledger n es hs)
