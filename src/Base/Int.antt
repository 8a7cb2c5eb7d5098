-- ===== src/Base/Int.antt =====
-- Signed integers over the native numbers: a Go `int` is read as the integer that it stands for.
use Prim.Native.Nat.{ℕ, zero, suc, ◌<◌}
use native.Mathlib.Omega.{arith}

-- `negsuc n` is -(n + 1).
pub data ℤ : Type 0 where
  pos : ℕ → ℤ
  negsuc : ℕ → ℤ

-- `if n <= 0 { n = d }`, the guard of the constructors.
abbrev pub positive_or : ℕ → ℤ → ℕ
positive_or d (pos zero) = d
positive_or d (pos (suc n)) = suc n
positive_or d (negsuc n) = d

-- `if n < 0 { n = 0 }`.
abbrev pub nonneg : ℤ → ℕ
nonneg (pos n) = n
nonneg (negsuc n) = 0

pub positive_or_positive : (d : ℕ) (n : ℤ) → 0 < d → 0 < positive_or d n
positive_or_positive d (pos zero) h = h
positive_or_positive d (pos (suc n)) h = omega arith
positive_or_positive d (negsuc n) h = h
