-- ===== src/Prelude/Int.antt =====
-- Signed integers over the native numbers, for sensor values and battery changes.
use Prim.Native.Nat.{ℕ, suc, ◌+◌, ◌-◌}
use mathlib.Core.Path.{◌≡◌}
use native.Mathlib.Omega.{arith}
use echod.Prelude.Tests.{if◌then◌else◌, ltb}

-- `negsuc n` is -(n + 1).
pub data ℤ : Type 0 where
  pos : ℕ → ℤ
  negsuc : ℕ → ℤ

abbrev pub pos_part : ℤ → ℕ
pos_part (pos n) = n
pos_part (negsuc n) = 0

abbrev pub neg_part : ℤ → ℕ
neg_part (pos n) = 0
neg_part (negsuc n) = suc n

-- pos m - (n + 1)
abbrev lowered : ℕ → ℕ → ℤ
lowered m n = if ltb n m then pos (m - suc n) else negsuc (n - m)

abbrev pub ◌+ℤ◌ : ℤ → ℤ → ℤ

infixl 65 ◌+ℤ◌
pos m +ℤ pos n = pos (m + n)
pos m +ℤ negsuc n = lowered m n
negsuc m +ℤ pos n = lowered n m
negsuc m +ℤ negsuc n = negsuc (suc (m + n))

-- |a|
abbrev pub abs : ℤ → ℕ
abs a = pos_part a + neg_part a

-- |a - b|: one of the two truncated differences is 0
abbrev pub distance : ℤ → ℤ → ℕ
distance a b =
    (pos_part a + neg_part b - (pos_part b + neg_part a))
    + (pos_part b + neg_part a - (pos_part a + neg_part b))

pub distance_self : (a : ℤ) → distance a a ≡ 0
distance_self a = omega arith
