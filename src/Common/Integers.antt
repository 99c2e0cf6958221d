-- ===== src/Common/Integers.antt =====
-- Go's `int` where it may be negative, over the native numbers.
use uiscsi.Common.{ℕ}

-- `negsuc n` is -(n + 1).
pub data ℤ : Type 0 where
  pos negsuc : ℕ → ℤ
