-- ===== src/Metrics/Recorder/Accounts.antt =====
-- A run as the events of its VUs, and what its recorders hold behind them.
use Prim.Native.String.{String}
use loadtool.Prelude.{
  ℕ, zero, suc, ◌+◌, ◌%◌, ◌<◌, ◌≡◌, refl, ap, ◌∙◌, min, List, [], ◌∷◌, map, Bool, true, false,
  arith, sum, count, length, modify, get_or, word, not,
}
use loadtool.Prelude.Int.{ℤ}
use loadtool.Metrics.Recorder.{
  Shard, Recorder, World, num_shards, new_recorders, shard_of, record_sent, record_unsent,
  record_status, record_protocol, record_iteration, record_script_error, record_check,
}

-- A call of a recorder's method; the number is the recorder's.
pub data Event : Type 0 where
  sent : ℕ → ℤ → Bool → Event
  unsent iteration : ℕ → Event
  status : ℕ → ℤ → Event
  protocol script_error : ℕ → String → Event
  check : ℕ → String → Bool → String → Event

abbrev pub recorder_of : Event → ℕ
recorder_of (sent i d ok) = i
recorder_of (unsent i) = i
recorder_of (iteration i) = i
recorder_of (status i c) = i
recorder_of (protocol i p) = i
recorder_of (script_error i m) = i
recorder_of (check i n p e) = i

abbrev pub happen : Event → World → World
happen (sent i d ok) w = record_sent w i d ok
happen (unsent i) w = record_unsent w i
happen (iteration i) w = record_iteration w i
happen (status i c) w = record_status w i c
happen (protocol i p) w = record_protocol w i p
happen (script_error i m) w = record_script_error w i m
happen (check i n p e) w = record_check w i n p e

-- The recorders behind the events of a history, the latest first.
abbrev pub world_of : ℕ → List Event → World
world_of n [] = new_recorders n
world_of n (e ∷ es) = happen e (world_of n es)

abbrev pub is_success : Event → Bool
is_success (sent i d ok) = ok
is_success _ = false

abbrev pub is_sent_failure : Event → Bool
is_sent_failure (sent i d ok) = not ok
is_sent_failure _ = false

abbrev pub is_unsent : Event → Bool
is_unsent (unsent i) = true
is_unsent _ = false

abbrev pub is_iteration : Event → Bool
is_iteration (iteration i) = true
is_iteration _ = false

abbrev pub is_script_error : Event → Bool
is_script_error (script_error i m) = true
is_script_error _ = false

-- The counters over all shards and recorders.
abbrev pub ok_total : World → ℕ
ok_total w = sum (map (λ (sh : Shard). sh.ok.n) w.shards)

abbrev pub failed_total : World → ℕ
failed_total w = sum (map (λ (sh : Shard). sh.failed.n) w.shards)

abbrev pub over : (Recorder → ℕ) → World → ℕ
over f w = sum (map f w.recorders)

abbrev pub addresses : World → List ℕ
addresses w = map (λ (r : Recorder). r.shard) w.recorders

-- Recorder number j has shard j modulo k.
abbrev pub addresses_from : ℕ → ℕ → ℕ → List ℕ
addresses_from i zero k = []
addresses_from i (suc n) k = i % k ∷ addresses_from (suc i) n k

pub record Ledger (n : ℕ) (es : List Event) (w : World) : Type 0 where
  pub sized : length w.shards ≡ min n num_shards
  pub placed : addresses w ≡ addresses_from 0 n (min n num_shards)
  pub oks : ok_total w % word ≡ count is_success es % word
  pub faileds : failed_total w % word ≡ count is_sent_failure es % word
  pub unsents : over (λ r. r.unsent) w ≡ count is_unsent es
  pub iterations : over (λ r. r.iterations) w ≡ count is_iteration es
  pub script_errors : over (λ r. r.script_errors) w ≡ count is_script_error es

module _ {ℓ} {A : Type ℓ} where
  pub sum-modify :
      (xs : List A) (i c : ℕ) (f : A → ℕ) (g : A → A)
      → i < length xs
      → ((x : A) → f (g x) ≡ f x + c)
      → sum (map f (modify xs i g)) ≡ sum (map f xs) + c
  sum-modify [] i c f g h e = absurd (omega arith)
  sum-modify (x ∷ xs) zero c f g h e = omega (arith, e x)
  sum-modify (x ∷ xs) (suc i) c f g h e = omega (arith, sum-modify xs i c f g (omega arith) e)

  pub sum-modify_mod :
      (xs : List A) (i c : ℕ) (f : A → ℕ) (g : A → A)
      → i < length xs
      → ((x : A) → f (g x) % word ≡ (f x + c) % word)
      → sum (map f (modify xs i g)) % word ≡ (sum (map f xs) + c) % word
  sum-modify_mod [] i c f g h e = absurd (omega arith)
  sum-modify_mod (x ∷ xs) zero c f g h e = omega (arith, e x)
  sum-modify_mod (x ∷ xs) (suc i) c f g h e =
      omega (arith, sum-modify_mod xs i c f g (omega arith) e)

  pub map-modify {κ} :
      {B : Type κ} (xs : List A) (i : ℕ) (f : A → B) (g : A → A)
      → ((x : A) → f (g x) ≡ f x)
      → map f (modify xs i g) ≡ map f xs
  map-modify [] i f g e = refl
  map-modify (x ∷ xs) zero f g e = ap (λ y. y ∷ map f xs) (e x)
  map-modify (x ∷ xs) (suc i) f g e = ap (λ ys. f x ∷ ys) (map-modify xs i f g e)

pub length-addresses : (i n k : ℕ) → length (addresses_from i n k) ≡ n
length-addresses i zero k = refl
length-addresses i (suc n) k = ap suc (length-addresses (suc i) n k)

pub get_or-addresses : (i n k j : ℕ) → j < n → get_or (addresses_from i n k) j 0 ≡ (i + j) % k
get_or-addresses i zero k j h = absurd (omega arith)
get_or-addresses i (suc n) k zero h = ap (λ m. m % k) (omega arith)
get_or-addresses i (suc n) k (suc j) h =
    get_or-addresses (suc i) n k j (omega arith) ∙ ap (λ m. m % k) (omega arith)

pub shard_of-get :
    (rs : List Recorder) (i : ℕ) → shard_of rs i ≡ get_or (map (λ (r : Recorder). r.shard) rs) i 0
shard_of-get [] i = refl
shard_of-get (r ∷ rs) zero = refl
shard_of-get (r ∷ rs) (suc i) = shard_of-get rs i
