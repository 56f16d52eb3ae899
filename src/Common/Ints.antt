-- ===== src/Common/Ints.antt =====
-- Integers over the native numbers, for Go's signed values that stay in range.
use Prim.Native.Nat.{ℕ}
use mathlib.Core.Bool.{Bool, true, false}
use go_atomos.Common.Tests.{ltb}

pub data ℤ : Type 0 where
  pos : ℕ → ℤ
  negsuc : ℕ → ℤ

abbrev pub is_negative : ℤ → Bool
is_negative (pos n) = false
is_negative (negsuc n) = true

-- `z != 0`
abbrev pub is_nonzero : ℤ → Bool
is_nonzero (pos n) = ltb 0 n
is_nonzero (negsuc n) = true

abbrev pub to_nat : ℤ → ℕ
to_nat (pos n) = n
to_nat (negsuc n) = 0
