-- ===== src/Prelude/Int.antt =====
-- The C type `int`, where a value can be negative.
use Prim.Native.Nat.{ℕ, zero, suc}
use mathlib.Core.Bool.{Bool, true, false}

-- `negsuc n` is -(n + 1).
pub data ℤ : Type 0 where
  pos : ℕ → ℤ
  negsuc : ℕ → ℤ

abbrev pub is_zero : ℤ → Bool
is_zero (pos zero) = true
is_zero (pos (suc n)) = false
is_zero (negsuc n) = false

-- `x > 0`
abbrev pub is_positive : ℤ → Bool
is_positive (pos zero) = false
is_positive (pos (suc n)) = true
is_positive (negsuc n) = false

-- `x == -1`
abbrev pub is_minus_one : ℤ → Bool
is_minus_one (pos n) = false
is_minus_one (negsuc zero) = true
is_minus_one (negsuc (suc n)) = false

abbrev pub to_ℕ : ℤ → ℕ
to_ℕ (pos n) = n
to_ℕ (negsuc n) = 0

-- `x++` and `x--`
abbrev pub suc_ℤ : ℤ → ℤ
suc_ℤ (pos n) = pos (suc n)
suc_ℤ (negsuc zero) = pos 0
suc_ℤ (negsuc (suc n)) = negsuc n

abbrev pub pred_ℤ : ℤ → ℤ
pred_ℤ (pos zero) = negsuc 0
pred_ℤ (pos (suc n)) = pos n
pred_ℤ (negsuc n) = negsuc (suc n)
