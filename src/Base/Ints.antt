-- ===== src/Base/Ints.antt =====
-- The C `int` results: status codes are 0, -1 or a negated errno.
use Prim.Native.Nat.{ℕ}

-- `negsuc n` is -(n + 1).
pub data ℤ : Type 0 where
  pos : ℕ → ℤ
  negsuc : ℕ → ℤ
