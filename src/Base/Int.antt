-- ===== src/Base/Int.antt =====
-- The integers, as far as the code compares them.
use Prim.Native.Nat.{ℕ}

pub data ℤ : Type 0 where
  pos : ℕ → ℤ
  -- -(n + 1)
  negsuc : ℕ → ℤ
