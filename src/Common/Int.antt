-- ===== src/Common/Int.antt =====
-- Signed integers over the native numbers, under the library's names, and the 64-bit conversions.
use Prim.Native.Nat.{ℕ, suc, ◌+◌, ◌-◌, ◌%◌}
use mathlib.Core.Bool.{Bool}
use config.Common.Tests.{ltb, leb, if◌then◌else◌}

-- `negsuc n` is -(n + 1).
pub data ℤ : Type 0 where
  pos : ℕ → ℤ
  negsuc : ℕ → ℤ

abbrev pub pos_part : ℤ → ℕ
pos_part (pos n) = n
pos_part (negsuc n) = 0

abbrev pub neg_part : ℤ → ℕ
neg_part (pos n) = 0
neg_part (negsuc n) = suc n

-- a - b, as an integer.
abbrev pub sub_ℕ : ℕ → ℕ → ℤ
sub_ℕ a b = if leb b a then pos (a - b) else negsuc (b - a - 1)

infixl 65 ◌+ℤ◌
unfoldable pub ◌+ℤ◌ : ℤ → ℤ → ℤ
a +ℤ b = sub_ℕ (pos_part a + pos_part b) (neg_part a + neg_part b)

-- The value fits in `std::int64_t`.
abbrev pub fits_int64 : ℤ → Bool
fits_int64 (pos n) = ltb n 0x8000000000000000
fits_int64 (negsuc n) = ltb n 0x8000000000000000

-- `std::int64_t( u )` for a `std::uint64_t`: two's complement.
abbrev pub to_int64 : ℕ → ℤ
to_int64 u = if ltb u 0x8000000000000000 then pos u else negsuc (0x10000000000000000 - u - 1)

abbrev pub wrap_uint64 : ℕ → ℕ
wrap_uint64 n = n % 0x10000000000000000
