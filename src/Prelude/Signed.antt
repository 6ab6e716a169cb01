-- ===== src/Prelude/Signed.antt =====
-- `int`, for the values that the code only passes on or compares with a bound.
use Prim.Native.Nat.{ℕ}

-- `negsuc n` is -(n + 1).
pub data ℤ : Type 0 where
  pos : ℕ → ℤ
  negsuc : ℕ → ℤ
