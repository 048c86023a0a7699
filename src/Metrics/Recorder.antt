-- ===== src/Metrics/Recorder.antt =====
-- The recorders of a run (internal/metrics/metrics.go, checks.go, and the shard of histogram.go), as
-- NewRecorders makes them: they share shards, which stand in a store by their number, and one table
-- of check names. So a recorder's shard is never nil here. Protocol metric families are left out.
-- A count of a recorder is an int, kept as a number.
pub mod Merge
pub mod Accounts
pub mod Kept
pub mod Totals
use Prim.Native.String.{String}
use text.Mathlib.Text.{◌==◌ as str_eq}
use loadtool.Prelude.{
  ℕ, zero, suc, ◌+◌, ◌-◌, ◌%◌, min, List, [], ◌∷◌, ◌++◌, map, Option, none, some, Bool, true, false,
  ◌||◌, ltb, ◌==◌, if◌then◌else◌, replicate, length, modify, get_elem?, add64,
}
use loadtool.Prelude.Int.{ℤ, pos, ltb_ℤ, pos_part}
use loadtool.Metrics.Histogram.{Histogram, new_histogram, bump, record_ns}

abbrev pub num_shards : ℕ
num_shards = 16

abbrev pub max_status : ℕ
max_status = 599

pub record Shard : Type 0 where
  pub ok : Histogram
  pub failed : Histogram
  pub statuses : List ℕ

unfoldable pub new_shard : Shard
new_shard = record {
  ok = new_histogram;
  failed = new_histogram;
  statuses = replicate (max_status + 1) 0;
}

pub record Protocols : Type 0 where
  pub http1 : ℕ
  pub http2 : ℕ
  pub other : ℕ

pub record CheckCount : Type 0 where
  pub passes : ℕ
  pub fails : ℕ
  pub first_error : String

pub record Recorder : Type 0 where
  pub shard : ℕ
  pub unsent : ℕ
  pub script_errors : ℕ
  pub first_script_error : String
  pub iterations : ℕ
  pub protocols : Protocols
  -- The cache of indexes, by name.
  pub check_index : List (String × ℕ)
  pub checks : List CheckCount

pub record World : Type 0 where
  pub shards : List Shard
  -- checkNames: the position of a name is its index.
  pub names : List String
  pub recorders : List Recorder

unfoldable pub new_recorder : ℕ → Recorder
new_recorder shard = record {
  shard = shard;
  unsent = 0;
  script_errors = 0;
  first_script_error = "";
  iterations = 0;
  protocols = record { http1 = 0; http2 = 0; other = 0 };
  check_index = [];
  checks = [];
}

-- The loop over the recorders from number `i`, `n` of them on `k` shards.
unfoldable pub recorders_from : ℕ → ℕ → ℕ → List Recorder
recorders_from i zero k = []
recorders_from i (suc n) k = new_recorder (i % k) ∷ recorders_from (suc i) n k

unfoldable pub new_recorders : ℕ → World
new_recorders n = record {
  shards = replicate (min n num_shards) new_shard;
  names = [];
  recorders = recorders_from 0 n (min n num_shards);
}

-- The shard of a recorder.
abbrev pub shard_of : List Recorder → ℕ → ℕ
shard_of [] i = 0
shard_of (r ∷ rs) zero = r.shard
shard_of (r ∷ rs) (suc i) = shard_of rs i

abbrev pub record_latency : ℤ → Bool → Shard → Shard
record_latency d true sh = record sh { ok = record_ns sh.ok d }
record_latency d false sh = record sh { failed = record_ns sh.failed d }

-- Record, RecordUnsent, RecordStatus, RecordProtocol, RecordIteration and RecordScriptError of
-- recorder `i`.
unfoldable pub record_sent : World → ℕ → ℤ → Bool → World
record_sent w i d ok = record w {
  shards = modify w.shards (shard_of w.recorders i) (record_latency d ok);
}

unfoldable pub record_unsent : World → ℕ → World
record_unsent w i = record w {
  recorders = modify w.recorders i (λ r. record r { unsent = r.unsent + 1 });
}

-- A status outside 100 to 599 counts as 0.
abbrev pub status_index : ℤ → ℕ
status_index code = if ltb_ℤ code (pos 100) || ltb_ℤ (pos max_status) code then 0 else pos_part code

abbrev pub count_status : ℤ → Shard → Shard
count_status code sh = record sh { statuses = bump sh.statuses (status_index code) }

unfoldable pub record_status : World → ℕ → ℤ → World
record_status w i code = record w {
  shards = modify w.shards (shard_of w.recorders i) (count_status code);
}

abbrev pub count_protocol : String → Protocols → Protocols
count_protocol proto p =
    if str_eq proto "HTTP/2.0"
    then record p { http2 = p.http2 + 1 }
    else if str_eq proto "HTTP/1.1" || str_eq proto "HTTP/1.0"
    then record p { http1 = p.http1 + 1 }
    else record p { other = p.other + 1 }

unfoldable pub record_protocol : World → ℕ → String → World
record_protocol w i proto = record w {
  recorders = modify w.recorders i (λ r. record r { protocols = count_protocol proto r.protocols });
}

unfoldable pub record_iteration : World → ℕ → World
record_iteration w i = record w {
  recorders = modify w.recorders i (λ r. record r { iterations = r.iterations + 1 });
}

abbrev pub count_script_error : String → Recorder → Recorder
count_script_error msg r = record r {
  first_script_error = if r.script_errors == 0 then msg else r.first_script_error;
  script_errors = r.script_errors + 1;
}

unfoldable pub record_script_error : World → ℕ → String → World
record_script_error w i msg = record w { recorders = modify w.recorders i (count_script_error msg) }

-- checkNames.id: the index of the name, and the table that has it.
unfoldable pub index_from : ℕ → String → List String → ℕ × List String
index_from i name [] = (i, name ∷ [])
index_from i name (n ∷ ns) =
    let (j, ns') = index_from (suc i) name ns in if str_eq n name then (i, n ∷ ns) else (j, n ∷ ns')

unfoldable pub lookup_index : List (String × ℕ) → String → Option ℕ
lookup_index [] name = none
lookup_index ((n, i) ∷ rest) name =
    let found = lookup_index rest name in if str_eq n name then some i else found

abbrev pub count_check : Bool → String → CheckCount → CheckCount
count_check true e c = record c { passes = c.passes + 1 }
count_check false e c = record c {
  fails = c.fails + 1;
  first_error = if str_eq c.first_error "" then e else c.first_error;
}

abbrev pub no_runs : CheckCount
no_runs = record { passes = 0; fails = 0; first_error = "" }

-- The counts, extended to index `i`.
abbrev pub pad_checks : List CheckCount → ℕ → List CheckCount
pad_checks cs i = cs ++ replicate (i + 1 - length cs) no_runs

-- RecordCheck, once the index is known; a new index is cached.
abbrev pub check_at : ℕ → Bool → String → Recorder → Recorder
check_at j passed e r = record r {
  checks = modify (pad_checks r.checks j) j (count_check passed e);
}

abbrev pub cache_check : String → ℕ → Recorder → Recorder
cache_check name j r = record r { check_index = (name, j) ∷ r.check_index }

abbrev pub index_of : List Recorder → ℕ → List (String × ℕ)
index_of [] i = []
index_of (r ∷ rs) zero = r.check_index
index_of (r ∷ rs) (suc i) = index_of rs i

-- With the index from the cache, or else from the table.
abbrev pub record_check_with : Option ℕ → World → ℕ → String → Bool → String → World
record_check_with (some j) w i name passed e = record w {
  recorders = modify w.recorders i (check_at j passed e);
}
record_check_with none w i name passed e =
    let (j, names) = index_from 0 name w.names in
    record w {
      names = names;
      recorders = modify w.recorders i (λ r. check_at j passed e (cache_check name j r));
    }

unfoldable pub record_check : World → ℕ → String → Bool → String → World
record_check w i name passed e =
    record_check_with (lookup_index (index_of w.recorders i) name) w i name passed e
