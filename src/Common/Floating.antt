-- ===== src/Common/Floating.antt =====
-- Go's float32 and float64 as two types with the operations that the program applies to them. The
-- operations are parameters of the model; the laws are those of IEEE 754 orders, which a NaN keeps
-- too, since every test with a NaN is false.
use mathlib.Core.Path.{◌≡◌}
use mathlib.Core.Bool.{Bool, true, false}
use netping.Common.Words.{ℤ}

pub record Floats (F32 F64 : Type 0) : Type 0 where
  -- float32(0), a < b, a - b
  pub zero32 : F32
  pub lt32 : F32 → F32 → Bool
  pub sub32 : F32 → F32 → F32
  pub add32 : F32 → F32 → F32
  pub div32 : F32 → F32 → F32
  -- conversions
  pub to64 : F32 → F64
  pub to32 : F64 → F32
  pub of_int32 : ℤ → F32
  pub of_int64 : ℤ → F64
  -- float64(0), a < b, a <= b, arithmetic, math.Abs, math.Pow
  pub zero64 : F64
  pub lt64 : F64 → F64 → Bool
  pub le64 : F64 → F64 → Bool
  pub add64 : F64 → F64 → F64
  pub sub64 : F64 → F64 → F64
  pub mul64 : F64 → F64 → F64
  pub div64 : F64 → F64 → F64
  pub abs64 : F64 → F64
  pub pow64 : F64 → F64 → F64
  -- time.Duration(x) and int(x), which cut the fraction off
  pub trunc64 : F64 → ℤ

pub record IsOrder {F : Type 0} (lt : F → F → Bool) : Type 0 where
  pub irrefl : (a : F) → lt a a ≡ false
  pub trans : (a b c : F) → lt a b ≡ true → lt b c ≡ true → lt a c ≡ true
