-- ===== src/Prelude/Int.antt =====
-- Signed integers over the native numbers, as far as configuration values need them.
use Prim.Native.Nat.{ℕ, zero, suc}

-- `negsuc n` is -(n + 1).
pub data ℤ : Type 0 where
  pos : ℕ → ℤ
  negsuc : ℕ → ℤ

-- `if n <= 0 { n = d }`, for a positive default.
abbrev pub positive_or : ℤ → ℕ → ℕ
positive_or (pos zero) d = d
positive_or (pos (suc n)) d = suc n
positive_or (negsuc n) d = d

-- `if n < 0 { n = d }`.
abbrev pub nonnegative_or : ℤ → ℕ → ℕ
nonnegative_or (pos n) d = n
nonnegative_or (negsuc n) d = d
