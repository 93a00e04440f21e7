-- ===== src/Prelude/Int.antt =====
-- Signed integers over the native numbers, and the 64-bit two's complement of Go's `int64`.
use ai_agent_go_service.Prelude.Tests.{ltb, leb, eqb, if◌then◌else◌}
use Prim.Native.Nat.{ℕ, zero, suc, ◌+◌, ◌-◌, ◌*◌, ◌%◌, ◌≤◌, ◌<◌}
use mathlib.Core.Path.{◌≡◌}
use mathlib.Core.Bool.{Bool, true}
use native.Mathlib.Omega.{arith}

-- `negsuc n` is -(n + 1).
pub data ℤ : Type 0 where
  pos : ℕ → ℤ
  negsuc : ℕ → ℤ

abbrev pub pos_part : ℤ → ℕ
pos_part (pos n) = n
pos_part (negsuc n) = 0

abbrev pub neg_part : ℤ → ℕ
neg_part (pos n) = 0
neg_part (negsuc n) = suc n

abbrev pub sub_ℕ : ℕ → ℕ → ℤ
sub_ℕ a b = if leb b a then pos (a - b) else negsuc (b - a - 1)

infixl 65 ◌+ℤ◌ ◌-ℤ◌
infix 50 ◌≤ℤ◌
unfoldable pub ◌+ℤ◌ : ℤ → ℤ → ℤ
a +ℤ b = sub_ℕ (pos_part a + pos_part b) (neg_part a + neg_part b)

unfoldable pub ◌-ℤ◌ : ℤ → ℤ → ℤ
a -ℤ b = sub_ℕ (pos_part a + neg_part b) (neg_part a + pos_part b)

abbrev pub ◌≤ℤ◌ : ℤ → ℤ → Type 0
a ≤ℤ b = pos_part a + neg_part b ≤ pos_part b + neg_part a

abbrev pub ltb_ℤ : ℤ → ℤ → Bool
ltb_ℤ a b = ltb (pos_part a + neg_part b) (pos_part b + neg_part a)

-- The `int64` with the bit pattern `m`, for m < 2 ^ 64.
abbrev pub signed64 : ℕ → ℤ
signed64 m = if ltb m 9223372036854775808 then pos m else negsuc (18446744073709551615 - m)

-- The `int64` that an integer wraps round to.
abbrev pub wrap64 : ℤ → ℤ
wrap64 (pos n) = signed64 (n % 18446744073709551616)
wrap64 (negsuc n) = signed64 (18446744073709551615 - n % 18446744073709551616)

-- `a * k` in `int64`, for a factor k that is not negative.
unfoldable pub mul64 : ℤ → ℕ → ℤ
mul64 (pos n) k = wrap64 (pos (n * k))
mul64 (negsuc n) zero = pos 0
mul64 (negsuc n) (suc k) = wrap64 (negsuc (suc n * suc k - 1))

-- A product that fits is exact.
pub mul64_fits : (n k : ℕ) → n * k < 9223372036854775808 → mul64 (pos n) k ≡ pos (n * k)
unfolding mul64
mul64_fits n k h = ground arith

abbrev pub eqb_ℤ : ℤ → ℤ → Bool
eqb_ℤ a b = eqb (pos_part a + neg_part b) (pos_part b + neg_part a)

pub eqb_ℤ→eq : (a b : ℤ) → eqb_ℤ a b ≡ true → a ≡ b
eqb_ℤ→eq (pos m) (pos n) h = ground arith
eqb_ℤ→eq (pos m) (negsuc n) h = ground arith
eqb_ℤ→eq (negsuc m) (pos n) h = ground arith
eqb_ℤ→eq (negsuc m) (negsuc n) h = ground arith
