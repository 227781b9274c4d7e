-- ===== src/Common/Int.antt =====
-- Signed integers over the native numbers, under the library's names.
use Prim.Native.Nat.{ℕ, zero, suc, ◌+◌, ◌-◌, ◌%◌, ◌^◌}
use mathlib.Core.Bool.{Bool, false}
use image_app.Common.Tests.{leb, ◌==◌, if◌then◌else◌}

-- `negsuc n` is -(n + 1).
pub data ℤ : Type 0 where
  pos : ℕ → ℤ
  negsuc : ℕ → ℤ

-- The number itself where it is positive, and 0 where the C test `v > 0` fails.
abbrev pub pos_part : ℤ → ℕ
pos_part (pos n) = n
pos_part (negsuc n) = 0

abbrev pub neg_part : ℤ → ℕ
neg_part (pos n) = 0
neg_part (negsuc n) = suc n

-- a - b, as an integer.
abbrev pub sub_ℕ : ℕ → ℕ → ℤ
sub_ℕ a b = if leb b a then pos (a - b) else negsuc (b - a - 1)

-- Addition of a natural number, and the decrement of C.
abbrev pub add_ℕ : ℤ → ℕ → ℤ
add_ℕ (pos a) n = pos (a + n)
add_ℕ (negsuc a) n = sub_ℕ n (suc a)

abbrev pub decrement : ℤ → ℤ
decrement (pos zero) = negsuc 0
decrement (pos (suc a)) = pos a
decrement (negsuc a) = negsuc (suc a)

-- The increment and the decrement of an unsigned long, here of 64 bits: both wrap around.
abbrev pub increment_u64 : ℕ → ℕ
increment_u64 m = (m + 1) % 2 ^ 64

abbrev pub decrement_u64 : ℕ → ℕ
decrement_u64 zero = 2 ^ 64 - 1
decrement_u64 (suc m) = m

-- v == n, for a constant n that is not negative.
abbrev pub is_nat : ℤ → ℕ → Bool
is_nat (pos a) n = a == n
is_nat (negsuc a) n = false
