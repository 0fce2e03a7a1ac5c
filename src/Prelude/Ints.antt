-- ===== src/Prelude/Ints.antt =====
-- Go's signed integers, by their value: a step of an `int32` wraps around.
use Prim.Native.Nat.{ℕ, suc, ◌+◌, ◌<◌}
use mathlib.Core.Path.{◌≡◌}
use mathlib.Core.Bool.{Bool, true, false}
use native.Mathlib.Omega.{arith}
use servicer.Prelude.Tests.{ltb, eqb, if◌then◌else◌}

-- `n`, and `-n - 1`.
pub data ℤ : Type 0 where
  pos : ℕ → ℤ
  negsuc : ℕ → ℤ

-- `a > b`.
unfoldable pub exceeds : ℤ → ℤ → Bool
exceeds (pos a) (pos b) = ltb b a
exceeds (pos a) (negsuc b) = true
exceeds (negsuc a) (pos b) = false
exceeds (negsuc a) (negsuc b) = ltb a b

abbrev pub max_int32 : ℕ
max_int32 = 2147483647

-- `x++` of an `int32`.
unfoldable pub increment : ℤ → ℤ
increment (pos n) = if eqb n max_int32 then negsuc max_int32 else pos (suc n)
increment (negsuc ℕ.zero) = pos 0
increment (negsuc (suc n)) = negsuc n

-- The `int32` of a length, cut at the largest.
unfoldable pub safe_int32_from_len : ℕ → ℤ
safe_int32_from_len length = if ltb max_int32 length then pos max_int32 else pos length

-- The same of an `int64`.
unfoldable pub safe_int32_from_int64 : ℤ → ℤ
safe_int32_from_int64 (pos n) = if ltb max_int32 n then pos max_int32 else pos n
safe_int32_from_int64 (negsuc n) = if ltb max_int32 n then negsuc max_int32 else negsuc n

-- Below the largest, a step adds one.
pub increment_below : (n : ℕ) → n < max_int32 → increment (pos n) ≡ pos (n + 1)
unfolding increment
increment_below n h = ground arith
