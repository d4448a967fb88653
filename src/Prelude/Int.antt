-- ===== src/Prelude/Int.antt =====
-- Go ints that may be negative: the two forms and the tests that the code makes on them.
use Prim.Native.Nat.{ℕ}
use mathlib.Core.Bool.{Bool, true, false}
use oarlock.Prelude.Tests.{ltb, leb}

-- `negsuc n` is -(n + 1).
pub data ℤ : Type 0 where
  pos : ℕ → ℤ
  negsuc : ℕ → ℤ

abbrev pub is_neg : ℤ → Bool
is_neg (pos n) = false
is_neg (negsuc n) = true

-- `z > k` for a constant k that is not negative.
abbrev pub gt_nat : ℤ → ℕ → Bool
gt_nat (pos n) k = ltb k n
gt_nat (negsuc n) k = false

-- `n <= z` for an n that is not negative.
abbrev pub nat_le : ℕ → ℤ → Bool
nat_le n (pos m) = leb n m
nat_le n (negsuc m) = false
