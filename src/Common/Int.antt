-- ===== src/Common/Int.antt =====
-- Go's `int` as an integer, where the program reads negative values.
use Prim.Native.Nat.{ℕ, zero, suc, ◌+◌}
use mathlib.Core.Path.{◌≡◌, ap}
use native.Mathlib.Omega.{arith}
use mathlib.Core.Bool.{Bool}
use ncore.Common.Tests.{ltb, leb, ◌==◌}

-- `negsuc n` is -(n + 1).
pub data ℤ : Type 0 where
  pos : ℕ → ℤ
  negsuc : ℕ → ℤ

abbrev pub pos_part : ℤ → ℕ
pos_part (pos n) = n
pos_part (negsuc n) = 0

abbrev pub neg_part : ℤ → ℕ
neg_part (pos n) = 0
neg_part (negsuc n) = suc n

abbrev pub leb_ℤ : ℤ → ℤ → Bool
leb_ℤ a b = leb (pos_part a + neg_part b) (pos_part b + neg_part a)

abbrev pub ltb_ℤ : ℤ → ℤ → Bool
ltb_ℤ a b = ltb (pos_part a + neg_part b) (pos_part b + neg_part a)

abbrev pub eqb_ℤ : ℤ → ℤ → Bool
eqb_ℤ a b = pos_part a + neg_part b == pos_part b + neg_part a

-- `z + 1` and `z - 1`
abbrev pub inc : ℤ → ℤ
inc (pos n) = pos (suc n)
inc (negsuc zero) = pos 0
inc (negsuc (suc n)) = negsuc n

abbrev pub dec : ℤ → ℤ
dec (pos zero) = negsuc 0
dec (pos (suc n)) = pos n
dec (negsuc n) = negsuc (suc n)

-- The integer is `a - b`.
abbrev pub IsDifference : ℤ → ℕ → ℕ → Type 0
IsDifference z a b = pos_part z + b ≡ a + neg_part z

pub inc-IsDifference : (z : ℤ) (a b : ℕ) → IsDifference z a b → IsDifference (inc z) (suc a) b
inc-IsDifference (pos n) a b h = omega (arith, h)
inc-IsDifference (negsuc zero) a b h = omega (arith, h)
inc-IsDifference (negsuc (suc n)) a b h = omega (arith, h)

pub dec-IsDifference : (z : ℤ) (a b : ℕ) → IsDifference z a b → IsDifference (dec z) a (suc b)
dec-IsDifference (pos zero) a b h = omega (arith, h)
dec-IsDifference (pos (suc n)) a b h = omega (arith, h)
dec-IsDifference (negsuc n) a b h = omega (arith, h)

-- Nothing taken off leaves the number itself.
pub IsDifference-pos : (z : ℤ) (a : ℕ) → IsDifference z a 0 → z ≡ pos a
IsDifference-pos (pos n) a h = ap pos (omega (arith, h))
IsDifference-pos (negsuc n) a h = absurd (omega (arith, h))
