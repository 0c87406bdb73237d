-- ===== src/Prelude/Int.antt =====
-- Signed numbers over the native naturals, for off_t: `negsuc n` is -(n + 1).
use Prim.Native.Nat.{ℕ}

pub data ℤ : Type 0 where
  pos negsuc : ℕ → ℤ
