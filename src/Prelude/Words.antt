-- ===== src/Prelude/Words.antt =====
-- `uint64` with its wrap-around, and `int64`, `time.Time` and `time.Duration` as numbers.
use Prim.Native.Nat.{ℕ, zero, suc, ◌+◌, ◌-◌, ◌%◌, ◌^◌, ◌≤◌, ◌<◌}
use mathlib.Core.Path.{◌≡◌}
use mathlib.Core.Bool.{Bool, true, false}
use native.Mathlib.Omega.{arith}
use process_exporter.Prelude.Tests.{ltb, if◌then◌else◌}

abbrev pub u64 : ℕ
u64 = 2 ^ 64

-- `a + b` and `a - b` on `uint64`.
unfoldable pub add64 : ℕ → ℕ → ℕ
add64 a b = (a + b) % u64

unfoldable pub sub64 : ℕ → ℕ → ℕ
sub64 a b = (a + u64 - b) % u64

pub add64-lt : (a b : ℕ) → add64 a b < u64
unfolding add64
add64-lt a b = omega arith

pub sub64-lt : (a b : ℕ) → sub64 a b < u64
unfolding sub64
sub64-lt a b = omega arith

pub add64_exact : (a b : ℕ) → a + b < u64 → add64 a b ≡ a + b
unfolding add64
add64_exact a b h = omega arith

pub sub64_exact : (a b : ℕ) → b ≤ a → a < u64 → sub64 a b ≡ a - b
unfolding sub64
sub64_exact a b h k = omega arith

-- Adding a difference that wrapped takes the loss away from the total.
pub add64-sub64 :
    (total a b : ℕ)
    → a < b
    → b < u64
    → b - a ≤ total
    → total < u64
    → add64 total (sub64 a b) ≡ total - (b - a)
unfolding add64 sub64
add64-sub64 total a b h k l m = omega arith

-- `negsuc n` is -(n + 1).
pub data ℤ : Type 0 where
  pos : ℕ → ℤ
  negsuc : ℕ → ℤ

-- `uint64(x)` of an `int64`.
unfoldable pub to_u64 : ℤ → ℕ
to_u64 (pos n) = n % u64
to_u64 (negsuc n) = u64 - suc n % u64

-- `int64(x)` of a 64-bit pattern
unfoldable pub to_signed : ℕ → ℤ
to_signed n = if ltb n (2 ^ 63) then pos n else negsuc (u64 - 1 - n)

-- An instant in nanoseconds since the zero value of `time.Time`, and a signed duration.
abbrev pub Time : Type 0
Time = ℕ

abbrev pub Duration : Type 0
Duration = ℤ

-- `t.Add(d)`; no instant of the program comes near the zero value, where this stops.
unfoldable pub add_duration : Time → Duration → Time
add_duration t (pos d) = t + d
add_duration t (negsuc d) = t - suc d

-- `d == 0`
abbrev pub is_zero : Duration → Bool
is_zero (pos zero) = true
is_zero _ = false
