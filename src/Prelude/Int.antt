-- ===== src/Prelude/Int.antt =====
-- Signed integers of any size, as `math/big` has them, over the native numbers.
use Prim.Native.Nat.{ℕ, suc, ◌+◌, ◌-◌, ◌*◌, ◌/◌, ◌≤◌}
use eth_custodial.Prelude.Tests.{ltb, leb, if◌then◌else◌}
use mathlib.Core.Bool.{Bool, ◌&&◌}

-- `negsuc n` is -(n + 1).
pub data ℤ : Type 0 where
  pos : ℕ → ℤ
  negsuc : ℕ → ℤ

abbrev pub pos_part : ℤ → ℕ
pos_part (pos n) = n
pos_part (negsuc n) = 0

abbrev pub neg_part : ℤ → ℕ
neg_part (pos n) = 0
neg_part (negsuc n) = suc n

infix 50 ◌≤ℤ◌
abbrev pub ◌≤ℤ◌ : ℤ → ℤ → Type 0
a ≤ℤ b = pos_part a + neg_part b ≤ pos_part b + neg_part a

abbrev pub ltb_ℤ : ℤ → ℤ → Bool
ltb_ℤ a b = ltb (pos_part a + neg_part b) (pos_part b + neg_part a)

abbrev pub leb_ℤ : ℤ → ℤ → Bool
leb_ℤ a b = leb (pos_part a + neg_part b) (pos_part b + neg_part a)

abbrev pub int_eq : ℤ → ℤ → Bool
int_eq a b = leb_ℤ a b && leb_ℤ b a

-- The product with a number: -(n + 1) * k is -((n + 1) * k).
abbrev pub scale : ℕ → ℤ → ℤ
scale k (pos n) = pos (n * k)
scale k (negsuc n) = if ltb 0 k then negsuc (suc n * k - 1) else pos 0

-- `big.Int.Div` by a positive number: Euclidean division, which rounds down.
abbrev pub div_ℕ : ℤ → ℕ → ℤ
div_ℕ (pos n) d = pos (n / d)
div_ℕ (negsuc n) d = negsuc (n / d)
