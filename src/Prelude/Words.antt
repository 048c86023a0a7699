-- ===== src/Prelude/Words.antt =====
-- 64-bit words: uint64 counters wrap, and int64 has a largest value.
use Prim.Native.Nat.{ℕ, ◌+◌, ◌-◌, ◌%◌, ◌^◌, ◌≤◌, ◌<◌}
use mathlib.Core.Path.{◌≡◌}
use native.Mathlib.Omega.{arith}

abbrev pub word : ℕ
word = 2 ^ 64

abbrev pub max_int64 : ℕ
max_int64 = 2 ^ 63 - 1

-- uint64 a + b
unfoldable pub add64 : ℕ → ℕ → ℕ
add64 a b = (a + b) % word

-- uint64 a - b
unfoldable pub sub64 : ℕ → ℕ → ℕ
sub64 a b = (a + (word - b % word)) % word

pub add64-exact : (a b : ℕ) → a + b < word → add64 a b ≡ a + b
unfolding add64
add64-exact a b h = omega arith

pub sub64-exact : (a b : ℕ) → a < word → b ≤ a → sub64 a b ≡ a - b
unfolding sub64
sub64-exact a b h k = omega arith

-- Adding keeps two numbers that agree up to wrap-around in agreement.
pub add64-mod : (a b : ℕ) → add64 (a % word) (b % word) ≡ (a + b) % word
unfolding add64
add64-mod a b = omega arith

pub add64-mod_left : (a b : ℕ) → add64 (a % word) b ≡ (b + a) % word
unfolding add64
add64-mod_left a b = omega arith
