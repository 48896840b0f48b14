-- ===== src/Base/Integers.antt =====
-- Integers over the native numbers, for a caller's count that may be negative.
use Prim.Native.Nat.{ℕ, zero, suc}

pub data ℤ : Type 0 where
  pos negsuc : ℕ → ℤ

-- `max(0, n)`.
abbrev pub to_nat : ℤ → ℕ
to_nat (pos n) = n
to_nat (negsuc n) = 0

-- `m - n`.
abbrev pub minus : ℕ → ℕ → ℤ
minus m zero = pos m
minus zero (suc n) = negsuc n
minus (suc m) (suc n) = minus m n
