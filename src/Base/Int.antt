-- ===== src/Base/Int.antt =====
-- Signed results over the native numbers; `negsuc n` is -(n + 1).
use Prim.Native.Nat.{ℕ, zero, suc, ◌+◌, ◌-◌, ◌%◌, ◌^◌, ◌≤◌, ◌<◌}
use mathlib.Core.Path.{◌≡◌}
use mathlib.Core.Bool.{Bool, true, false}
use native.Mathlib.Omega.{arith}
use ild.Base.Tests.{ltb, ◌==◌, if◌then◌else◌}

pub data ℤ : Type 0 where
  pos : ℕ → ℤ
  negsuc : ℕ → ℤ

-- -n, as in `return -EFAULT`
abbrev pub neg : ℕ → ℤ
neg zero = pos 0
neg (suc n) = negsuc n

abbrev pub pos_part : ℤ → ℕ
pos_part (pos n) = n
pos_part (negsuc n) = 0

abbrev pub is_zero : ℤ → Bool
is_zero (pos n) = n == 0
is_zero (negsuc n) = false

abbrev pub is_neg : ℤ → Bool
is_neg (pos n) = false
is_neg (negsuc n) = true

-- The `int` and the 64-bit signed number that a bit pattern stands for.
abbrev pub i32 : ℕ → ℤ
i32 n = let w = n % 2 ^ 32 in if ltb w (2 ^ 31) then pos w else negsuc (2 ^ 32 - 1 - w)

abbrev pub i64 : ℕ → ℤ
i64 n = let w = n % 2 ^ 64 in if ltb w (2 ^ 63) then pos w else negsuc (2 ^ 64 - 1 - w)

-- The difference of two 64-bit numbers, wrapped.
abbrev pub sub_u64 : ℕ → ℕ → ℕ
sub_u64 a b = (a + 2 ^ 64 - b) % 2 ^ 64

-- Small numbers are read back as their difference, or as nothing.
pub i32-sub_u64 : (a b : ℕ) → a < 2 ^ 31 → b ≤ 2 ^ 31 → pos_part (i32 (sub_u64 a b)) ≡ a - b
i32-sub_u64 a b h k = ground arith

pub i64-sub_u64 : (a b : ℕ) → a < 2 ^ 63 → b < 2 ^ 63 → pos_part (i64 (sub_u64 a b)) ≡ a - b
i64-sub_u64 a b h k = ground arith
