-- ===== src/Base/Int.antt =====
-- Signed integers over the native numbers, for the values of C type `int`.
use Prim.Native.Nat.{ℕ, zero, suc, ◌+◌, ◌≤◌}
use native.Mathlib.Omega.{arith}

-- `negsuc n` is -(n + 1).
pub data ℤ : Type 0 where
  pos : ℕ → ℤ
  negsuc : ℕ → ℤ

abbrev pub pos_part : ℤ → ℕ
pos_part (pos n) = n
pos_part (negsuc n) = 0

abbrev pub neg_part : ℤ → ℕ
neg_part (pos n) = 0
neg_part (negsuc n) = suc n

abbrev pub neg : ℕ → ℤ
neg zero = pos zero
neg (suc n) = negsuc n

infix 50 ◌≤ℤ◌
abbrev pub ◌≤ℤ◌ : ℤ → ℤ → Type 0
a ≤ℤ b = pos_part a + neg_part b ≤ pos_part b + neg_part a

pub ≤ℤ_total_of_not : (a b : ℤ) → (a ≤ℤ b → ⊥) → b ≤ℤ a
≤ℤ_total_of_not a b h = grind arith

-- The difference of two natural numbers.
abbrev pub difference : ℕ → ℕ → ℤ
difference m zero = pos m
difference zero (suc n) = negsuc n
difference (suc m) (suc n) = difference m n

infixl 60 ◌+ℤ◌ ◌-ℤ◌
abbrev pub ◌+ℤ◌ : ℤ → ℤ → ℤ
a +ℤ b = difference (pos_part a + pos_part b) (neg_part a + neg_part b)

abbrev pub ◌-ℤ◌ : ℤ → ℤ → ℤ
a -ℤ b = difference (pos_part a + neg_part b) (neg_part a + pos_part b)

abbrev pub absℤ : ℤ → ℤ
absℤ a = pos (pos_part a + neg_part a)
