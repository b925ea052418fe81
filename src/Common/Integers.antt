-- ===== src/Common/Integers.antt =====
-- Signed integers over the native numbers, for the program's `int` where a value may be negative.
use Prim.Native.Nat.{ℕ, zero, suc, ◌+◌, ◌-◌}
use mathlib.Core.Bool.{Bool, false}
use fleetsweeper.Common.Tests.{if◌then◌else◌, leb, ltb}

pub data ℤ : Type 0 where
  pos : ℕ → ℤ
  negsuc : ℕ → ℤ

-- What is left of a after b is taken from it.
unfoldable pub difference : ℕ → ℕ → ℤ
difference a b = if leb b a then pos (a - b) else negsuc (b - a - 1)

infixl 60 ◌+ℤ◌ ◌-ℤ◌
unfoldable pub ◌+ℤ◌ : ℤ → ℤ → ℤ
unfolding difference
pos a +ℤ pos b = pos (a + b)
pos a +ℤ negsuc b = difference a (suc b)
negsuc a +ℤ pos b = difference b (suc a)
negsuc a +ℤ negsuc b = negsuc (suc (a + b))

abbrev pub opposite : ℤ → ℤ
opposite (pos zero) = pos 0
opposite (pos (suc n)) = negsuc n
opposite (negsuc n) = pos (suc n)

unfoldable pub ◌-ℤ◌ : ℤ → ℤ → ℤ
unfolding ◌+ℤ◌
a -ℤ b = a +ℤ opposite b

-- Is the integer at least the number?
abbrev pub at_least : ℕ → ℤ → Bool
at_least n (pos a) = leb n a
at_least n (negsuc a) = false

-- `max(x, 0)`
abbrev pub positive_part : ℤ → ℕ
positive_part (pos n) = n
positive_part (negsuc n) = 0

-- The 64 bits of a sum or a difference of two numbers of 64 bits.
unfoldable pub int64 : ℤ → ℤ
unfolding difference
int64 (pos n) =
    if ltb n 9_223_372_036_854_775_808 then pos n else difference n 18_446_744_073_709_551_616
int64 (negsuc n) =
    if ltb n 9_223_372_036_854_775_808 then negsuc n else pos (18_446_744_073_709_551_615 - n)
