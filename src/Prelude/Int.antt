-- ===== src/Prelude/Int.antt =====
-- Signed integers over the native numbers, for the integers that a provider may send.
use Prim.Native.Nat.{ℕ, suc, ◌+◌}
use mathlib.Core.Bool.{Bool}
use pullfrog_azure.Prelude.Tests.{ltb}

-- `negsuc n` is -(n + 1).
pub data ℤ : Type 0 where
  pos : ℕ → ℤ
  negsuc : ℕ → ℤ

abbrev pub pos_part : ℤ → ℕ
pos_part (pos n) = n
pos_part (negsuc n) = 0

abbrev pub neg_part : ℤ → ℕ
neg_part (pos n) = 0
neg_part (negsuc n) = suc n

-- a < b
abbrev pub ltb_ℤ : ℤ → ℤ → Bool
ltb_ℤ a b = ltb (pos_part a + neg_part b) (pos_part b + neg_part a)

-- a + n, on the two parts: -(k + 1) + n compares with b as n does with b + k + 1
abbrev pub ltb_add : ℤ → ℕ → ℤ → Bool
ltb_add a n b = ltb (pos_part a + n + neg_part b) (pos_part b + neg_part a)
