-- ===== src/Base/Int.antt =====
-- Go's signed 64-bit integers over the native numbers, and their bit patterns.
use Prim.Native.Nat.{ℕ, suc, ◌-◌, ◌*◌, ◌/◌, ◌%◌, ◌^◌, ◌<◌}
use mathlib.Core.Path.{◌≡◌}
use native.Mathlib.Omega.{arith}
use rainbowsquirrel.Base.Tests.{ltb, if◌then◌else◌}

-- `negsuc n` is -(n + 1).
pub data ℤ : Type 0 where
  pos : ℕ → ℤ
  negsuc : ℕ → ℤ

-- The values of an int64, and of a uint64.
abbrev pub IsI64 : ℤ → Type 0
IsI64 (pos n) = n < 2 ^ 63
IsI64 (negsuc n) = n < 2 ^ 63

abbrev pub IsU64 : ℕ → Type 0
IsU64 n = n < 2 ^ 64

-- `uint64(z)` and `int64(u)`: the same 64 bits.
unfoldable pub to_u64 : ℤ → ℕ
to_u64 (pos n) = n % 2 ^ 64
to_u64 (negsuc n) = 2 ^ 64 - 1 - n % 2 ^ 64

unfoldable pub of_u64 : ℕ → ℤ
of_u64 u = if ltb u (2 ^ 63) then pos u else negsuc (2 ^ 64 - 1 - u)

pub of_u64-to_u64 : (z : ℤ) → IsI64 z → of_u64 (to_u64 z) ≡ z
unfolding of_u64 to_u64
of_u64-to_u64 (pos n) h = ground arith
of_u64-to_u64 (negsuc n) h = ground arith

-- `z * k` on int64, with the wrap-around.
unfoldable pub mul_i64 : ℤ → ℕ → ℤ
mul_i64 z k = of_u64 (to_u64 z * k % 2 ^ 64)

-- `z / k` for a positive `k`: Go's division rounds towards 0.
unfoldable pub div_i64 : ℤ → ℕ → ℤ
div_i64 (pos n) k = pos (n / k)
div_i64 (negsuc n) k = if ltb (suc n) k then pos 0 else negsuc (suc n / k - 1)
