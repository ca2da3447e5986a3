-- ===== src/Common/Int.antt =====
-- Signed numbers: `pos n` is n and `negsuc n` is -(n + 1).
use Prim.Native.Nat.{ℕ, zero, suc, ◌+◌}
use mathlib.Core.Bool.{Bool, true, false}
use camkes_vm.Common.Tests.{leb}

pub data ℤ : Type 0 where
  pos : ℕ → ℤ
  negsuc : ℕ → ℤ

abbrev pub is_neg : ℤ → Bool
is_neg (pos n) = false
is_neg (negsuc n) = true

-- `a <= k`, for k not negative
abbrev pub le_nat : ℤ → ℕ → Bool
le_nat (pos n) k = leb n k
le_nat (negsuc n) k = true

-- `a++`
abbrev pub inc : ℤ → ℤ
inc (pos n) = pos (n + 1)
inc (negsuc zero) = pos 0
inc (negsuc (suc n)) = negsuc n
