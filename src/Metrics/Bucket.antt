-- ===== src/Metrics/Bucket.antt =====
-- The bucket layout of internal/metrics/histogram.go. Latencies are nanoseconds, `int64` values
-- that are at least 0, kept as plain numbers.
pub mod Bits
pub mod Bounds
pub mod Accuracy
use loadtool.Prelude.{
  ℕ, zero, suc, ◌+◌, ◌-◌, ◌*◌, ◌/◌, ◌%◌, ◌^◌, ltb, ◌==◌, if◌then◌else◌, ◌≡◌, refl,
}

abbrev pub sub_bits : ℕ
sub_bits = 6

-- 1 << subBits
abbrev pub sub_buckets : ℕ
sub_buckets = 64

abbrev pub linear : ℕ
linear = 2 * sub_buckets

-- time.Hour in nanoseconds
abbrev pub max_tracked : ℕ
max_tracked = 3_600_000_000_000

-- bits.Len64: the number of bits that `v` needs, on as many rounds as a word has bits.
unfoldable pub len_rounds : ℕ → ℕ → ℕ
len_rounds zero v = 0
len_rounds (suc k) v = let rest = len_rounds k (v / 2) in if v == 0 then 0 else suc rest

unfoldable pub len64 : ℕ → ℕ
len64 v = len_rounds 64 v

-- `v >> shift` is written as a division. The subtractions do not stop at 0: `v` is at least
-- `linear`, so `len64 v` is at least 8 and `top` at least `sub_buckets` (Bucket/Bounds).
unfoldable pub bucket_index : ℕ → ℕ
bucket_index v =
    let shift = len64 v - (sub_bits + 1) in
    let top = v / 2 ^ shift in
    if ltb v linear then v else linear + (shift - 1) * sub_buckets + (top - sub_buckets)

unfoldable pub num_buckets : ℕ
num_buckets = bucket_index max_tracked + 1

unfoldable pub bucket_mid : ℕ → ℕ
bucket_mid i =
    let shift = (i - linear) / sub_buckets + 1 in
    let top = sub_buckets + (i - linear) % sub_buckets in
    let lo = top * 2 ^ shift in if ltb i linear then i else lo + 2 ^ shift / 2

pub num_buckets_value : num_buckets ≡ 2345
unfolding num_buckets bucket_index len64 len_rounds
num_buckets_value = refl
