-- ===== src/Base/Int.antt =====
-- Signed integers over the native numbers: the values of C's `int` results. A comparison function
-- answers by the sign, and `first_nonzero` is the idiom `if ((rc = a)) return rc; return b`.
use Prim.Native.Nat.{ℕ, zero, suc, ◌+◌, ◌-◌, ◌%◌, ◌^◌, ◌≤◌, ◌<◌}
use mathlib.Core.Path.{◌≡◌}
use mathlib.Core.Bool.{Bool, true, false}
use native.Mathlib.Omega.{arith}
use poldek.Base.Tests.{ltb, leb, if◌then◌else◌}

-- `negsuc n` is -(n + 1).
pub data ℤ : Type 0 where
  pos : ℕ → ℤ
  negsuc : ℕ → ℤ

abbrev pub pos_part : ℤ → ℕ
pos_part (pos n) = n
pos_part (negsuc n) = 0

abbrev pub neg_part : ℤ → ℕ
neg_part (pos n) = 0
neg_part (negsuc n) = suc n

-- a - b, as an integer.
abbrev pub sub_ℕ : ℕ → ℕ → ℤ
sub_ℕ a b = if leb b a then pos (a - b) else negsuc (b - a - 1)

abbrev pub neg : ℤ → ℤ
neg (pos zero) = pos zero
neg (pos (suc n)) = negsuc n
neg (negsuc n) = pos (suc n)

abbrev pub is_zero : ℤ → Bool
is_zero (pos zero) = true
is_zero (pos (suc n)) = false
is_zero (negsuc n) = false

abbrev pub is_negative : ℤ → Bool
is_negative (pos n) = false
is_negative (negsuc n) = true

abbrev pub is_positive : ℤ → Bool
is_positive (pos zero) = false
is_positive (pos (suc n)) = true
is_positive (negsuc n) = false

abbrev pub first_nonzero : ℤ → ℤ → ℤ
first_nonzero (pos zero) b = b
first_nonzero (pos (suc n)) b = pos (suc n)
first_nonzero (negsuc n) b = negsuc n

abbrev pub u32_mod : ℕ
u32_mod = 2 ^ 32

-- The `int32_t` with the bit pattern `x`, a number below 2^32.
abbrev pub i32_of_u32 : ℕ → ℤ
i32_of_u32 x = if ltb x (2 ^ 31) then pos x else negsuc (2 ^ 32 - x - 1)

-- The bit pattern of an integer as a `uint32_t`.
abbrev pub u32_of_int : ℤ → ℕ
u32_of_int (pos n) = n % 2 ^ 32
u32_of_int (negsuc n) = 2 ^ 32 - 1 - n % 2 ^ 32

-- `int rc = a - b` for two `uint32_t`: the difference wraps, then is read as signed.
unfoldable pub diff_u32 : ℕ → ℕ → ℤ
diff_u32 a b = i32_of_u32 ((a + 2 ^ 32 - b) % 2 ^ 32)

-- `a - b` for two `int32_t`, as two's complement hardware computes it.
unfoldable pub diff_i32 : ℤ → ℤ → ℤ
diff_i32 a b = i32_of_u32 ((u32_of_int a + 2 ^ 32 - u32_of_int b) % 2 ^ 32)

abbrev pub IsNonPos : ℤ → Type 0
IsNonPos a = pos_part a ≤ 0

abbrev pub IsNonNeg : ℤ → Type 0
IsNonNeg a = neg_part a ≤ 0

-- The numbers whose differences fit into an `int`.
abbrev pub IsSmall : ℕ → Type 0
IsSmall n = n < 2 ^ 31

abbrev pub ◌≤ℤ◌ : ℤ → ℤ → Type 0
◌≤ℤ◌ a b = pos_part a + neg_part b ≤ pos_part b + neg_part a

-- An integer in the range of `int32_t` that an epoch may have: not negative.
abbrev pub IsEpoch : ℤ → Type 0
IsEpoch a = (neg_part a ≤ 0) × (pos_part a < 2 ^ 31)

pub diff_u32_small : (a b : ℕ) → IsSmall a → IsSmall b → diff_u32 a b ≡ sub_ℕ a b
unfolding diff_u32
diff_u32_small a b ha hb = ground arith

pub diff_i32_epoch :
    (a b : ℤ) → IsEpoch a → IsEpoch b → diff_i32 a b ≡ sub_ℕ (pos_part a) (pos_part b)
unfolding diff_i32
diff_i32_epoch (pos a) (pos b) ha hb = ground arith
diff_i32_epoch (pos a) (negsuc b) ha hb = absurd (omega arith)
diff_i32_epoch (negsuc a) b ha hb = absurd (omega arith)

-- The range of `int32_t`.
abbrev pub IsI32 : ℤ → Type 0
IsI32 a = (pos_part a < 2 ^ 31) × (neg_part a ≤ 2 ^ 31)

pub i32_of_u32-u32_of_int : (a : ℤ) → IsI32 a → i32_of_u32 (u32_of_int a) ≡ a
i32_of_u32-u32_of_int (pos n) h = ground arith
i32_of_u32-u32_of_int (negsuc n) h = ground arith

pub u32_of_int-lt : (a : ℤ) → u32_of_int a < 2 ^ 32
u32_of_int-lt (pos n) = omega arith
u32_of_int-lt (negsuc n) = omega arith
