-- ===== src/Base/Int.antt =====
-- Go's `int` and `int64` (both 64 bits wide here) as integers in [-2^63, 2^63), with the
-- wrap-around of `++` written out, and its counters as the bit pattern of an `int64`.
use Prim.Native.Nat.{ℕ, zero, suc, ◌+◌, ◌-◌, ◌%◌, ◌^◌, ◌≤◌, ◌<◌}
use mathlib.Core.Path.{◌≡◌}
use mathlib.Core.Bool.{Bool}
use native.Mathlib.Omega.{arith}
use mathlib.Core.Logic.{inl, inr}
use jxt_core.Base.Tests.{ltb, leb, ◌==◌, if◌then◌else◌, Bool-cases}

-- `negsuc n` is -(n + 1).
pub data ℤ : Type 0 where
  pos : ℕ → ℤ
  negsuc : ℕ → ℤ

abbrev pub pos_part : ℤ → ℕ
pos_part (pos n) = n
pos_part (negsuc n) = 0

abbrev pub neg_part : ℤ → ℕ
neg_part (pos n) = 0
neg_part (negsuc n) = suc n

-- a - b, as an integer.
abbrev pub sub_ℕ : ℕ → ℕ → ℤ
sub_ℕ a b = if leb b a then pos (a - b) else negsuc (b - a - 1)

infix 50 ◌≤ℤ◌ ◌<ℤ◌
abbrev pub ◌≤ℤ◌ : ℤ → ℤ → Type 0
a ≤ℤ b = pos_part a + neg_part b ≤ pos_part b + neg_part a

abbrev pub ◌<ℤ◌ : ℤ → ℤ → Type 0
a <ℤ b = pos_part a + neg_part b < pos_part b + neg_part a

abbrev pub ltb_ℤ : ℤ → ℤ → Bool
ltb_ℤ a b = ltb (pos_part a + neg_part b) (pos_part b + neg_part a)

abbrev pub eqb_ℤ : ℤ → ℤ → Bool
eqb_ℤ a b = (pos_part a + neg_part b) == (pos_part b + neg_part a)

-- The largest `int`; the smallest is `negsuc max_int`.
abbrev pub max_int : ℕ
max_int = 2 ^ 63 - 1

-- `n++` on an `int`.
unfoldable pub int_incr : ℤ → ℤ
int_incr (pos n) = if n == max_int then negsuc max_int else pos (n + 1)
int_incr (negsuc zero) = pos 0
int_incr (negsuc (suc n)) = negsuc n

-- Below the largest `int` the increment is exact.
pub int_incr_exact : (n : ℕ) → n < max_int → int_incr (pos n) ≡ pos (n + 1)
unfolding int_incr
int_incr_exact n h = ground arith

-- A counter `c += n` of type `int64`, as its bit pattern.
abbrev pub add_counter : ℕ → ℕ → ℕ
add_counter c n = (c + n) % 2 ^ 64

abbrev pub add_ℤ : ℤ → ℤ → ℤ
add_ℤ (pos a) (pos b) = pos (a + b)
add_ℤ (pos a) (negsuc b) = sub_ℕ a (suc b)
add_ℤ (negsuc a) (pos b) = sub_ℕ b (suc a)
add_ℤ (negsuc a) (negsuc b) = negsuc (a + b + 1)

-- The `int64` that has the number's last 64 bits.
unfoldable pub wrap_int : ℤ → ℤ
wrap_int (pos n) = let m = n % 2 ^ 64 in if leb m max_int then pos m else negsuc (2 ^ 64 - 1 - m)
wrap_int (negsuc n) = let m = n % 2 ^ 64 in if leb m max_int then negsuc m else pos (2 ^ 64 - 1 - m)

-- `a + b` of type `int64`.
unfoldable pub add_int64 : ℤ → ℤ → ℤ
unfolding wrap_int
add_int64 a b = wrap_int (add_ℤ a b)

abbrev pub IsInt : ℤ → Type 0
IsInt (pos n) = n ≤ max_int
IsInt (negsuc n) = n ≤ max_int

pub wrap_int-IsInt : (a : ℤ) → IsInt (wrap_int a)
unfolding wrap_int
wrap_int-IsInt (pos n) = elim (Bool-cases (leb (n % 2 ^ 64) max_int)) [
  | inl small ↦ rw (small, wrap_int) (ground (arith, small))
  | inr large ↦ rw (large, wrap_int) (ground (arith, large))
]
wrap_int-IsInt (negsuc n) = elim (Bool-cases (leb (n % 2 ^ 64) max_int)) [
  | inl small ↦ rw (small, wrap_int) (ground (arith, small))
  | inr large ↦ rw (large, wrap_int) (ground (arith, large))
]
