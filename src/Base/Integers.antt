-- ===== src/Base/Integers.antt =====
-- What Python's `int` reads of a text: an integer of any sign.
use Prim.Native.Nat.{ℕ}

pub data ℤ : Type 0 where
  pos : ℕ → ℤ
  -- -(n + 1)
  negsuc : ℕ → ℤ
