-- ===== src/Base/Ints.antt =====
-- Go's `int` where a negative value has a meaning of its own.
use Prim.Native.Nat.{ℕ}

-- `negsuc n` is -(n + 1).
pub data ℤ : Type 0 where
  pos : ℕ → ℤ
  negsuc : ℕ → ℤ
