-- ===== src/Prelude/Int.antt =====
-- Signed integers over the native numbers, and the two's complement of a machine word.
use Prim.Native.Nat.{ℕ, ◌+◌, ◌-◌, ◌*◌, ◌<◌}
use mathlib.Core.Path.{◌≡◌}
use native.Mathlib.Omega.{arith}
use dowow_network.Prelude.Tests.{ltb, if◌then◌else◌}

-- `negsuc n` is -(n + 1).
pub data ℤ : Type 0 where
  pos : ℕ → ℤ
  negsuc : ℕ → ℤ

-- The integer that a bit pattern below 2 * half stands for in a signed type of range
-- -half .. half - 1.
unfoldable pub to_signed : ℕ → ℕ → ℤ
to_signed half n = if ltb n half then pos n else negsuc (2 * half - n - 1)

-- The bit pattern of a signed integer.
unfoldable pub to_unsigned : ℕ → ℤ → ℕ
to_unsigned half (pos n) = n
to_unsigned half (negsuc n) = 2 * half - (n + 1)

-- The integer lies in the range of the signed type.
abbrev pub IsSigned : ℕ → ℤ → Type 0
IsSigned half (pos n) = n < half
IsSigned half (negsuc n) = n < half

pub to_unsigned-lt : (half : ℕ) (z : ℤ) → IsSigned half z → to_unsigned half z < 2 * half
unfolding to_unsigned
to_unsigned-lt half (pos n) h = omega arith
to_unsigned-lt half (negsuc n) h = omega arith

pub to_signed-to_unsigned :
    (half : ℕ) (z : ℤ) → IsSigned half z → to_signed half (to_unsigned half z) ≡ z
unfolding to_signed to_unsigned
to_signed-to_unsigned half (pos n) h = ground arith
to_signed-to_unsigned half (negsuc n) h = ground arith

pub to_signed-IsSigned : (half n : ℕ) → n < 2 * half → IsSigned half (to_signed half n)
unfolding to_signed
to_signed-IsSigned half n h = ground arith
