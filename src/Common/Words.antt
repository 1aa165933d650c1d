-- ===== src/Common/Words.antt =====
-- Machine integers, signed integers over the native numbers, and Go's `time`.
use Prim.Native.Nat.{ℕ, zero, suc, ◌+◌, ◌-◌, ◌%◌, ◌≤◌, ◌<◌, min}
use mathlib.Core.Path.{◌≡◌}
use mathlib.Core.Bool.{Bool, true, false}
use native.Mathlib.Omega.{arith}
use netping.Common.Tests.{leb, ltb, if◌then◌else◌}

-- `negsuc n` is -(n + 1).
pub data ℤ : Type 0 where
  pos : ℕ → ℤ
  negsuc : ℕ → ℤ

-- `z <= 0`
abbrev pub le_zero : ℤ → Bool
le_zero (pos zero) = true
le_zero (pos (suc n)) = false
le_zero (negsuc n) = true

-- `z == 0`
abbrev pub is_zero : ℤ → Bool
is_zero (pos zero) = true
is_zero (pos (suc n)) = false
is_zero (negsuc n) = false

-- `a <= b`
abbrev pub leb_ℤ : ℤ → ℤ → Bool
leb_ℤ (pos a) (pos b) = leb a b
leb_ℤ (pos a) (negsuc b) = false
leb_ℤ (negsuc a) (pos b) = true
leb_ℤ (negsuc a) (negsuc b) = leb b a

abbrev pub two64 : ℕ
two64 = 18446744073709551616

abbrev pub two63 : ℕ
two63 = 9223372036854775808

-- `x++` on a 64-bit counter. An `int` is held by the bits of its two's complement form.
unfoldable pub inc : ℕ → ℕ
inc n = (n + 1) % two64

pub inc_small : (n : ℕ) → n + 1 < two64 → inc n ≡ n + 1
unfolding inc
inc_small n h = omega arith

-- `a + b` on 64-bit unsigned integers
unfoldable pub add_u64 : ℕ → ℕ → ℕ
add_u64 a b = (a + b) % two64

-- An int64 and its bits.
abbrev pub to_bits : ℤ → ℕ
to_bits (pos n) = n % two64
to_bits (negsuc n) = two64 - 1 - n % two64

abbrev pub of_bits : ℕ → ℤ
of_bits b = if ltb b two63 then pos b else negsuc (two64 - 1 - b)

-- `a + b` on int64
unfoldable pub add_i64 : ℤ → ℤ → ℤ
add_i64 a b = of_bits ((to_bits a + to_bits b) % two64)

pub add_i64_small : (a b : ℕ) → a + b < two63 → add_i64 (pos a) (pos b) ≡ pos (a + b)
unfolding add_i64
add_i64_small a b h = ground arith

-- time.Time, in nanoseconds since the zero time, and time.Duration, an int64 of nanoseconds.
abbrev pub Time : Type 0
Time = ℕ

abbrev pub Duration : Type 0
Duration = ℤ

-- Time.Sub saturates at the least and the greatest duration.
unfoldable pub sub_time : Time → Time → Duration
sub_time t u =
    if leb u t then pos (min (t - u) (two63 - 1)) else negsuc (min (u - t - 1) (two63 - 1))

pub sub_time_small : (t u : Time) → u ≤ t → t - u < two63 → sub_time t u ≡ pos (t - u)
unfolding sub_time
sub_time_small t u h k = ground arith

-- Time.Add, down to the zero time
abbrev pub add_time : Time → Duration → Time
add_time t (pos d) = t + d
add_time t (negsuc d) = t - suc d

abbrev pub millisecond : ℕ
millisecond = 1000000

abbrev pub second : ℕ
second = 1000000000
