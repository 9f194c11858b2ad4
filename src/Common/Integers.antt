-- ===== src/Common/Integers.antt =====
-- Go's `int`, where the code takes a negative one.
use Prim.Native.Nat.{ℕ}

-- `negsuc n` is -(n + 1).
pub data ℤ : Type 0 where
  pos : ℕ → ℤ
  negsuc : ℕ → ℤ

-- `if n < 0 { n = 0 }`
abbrev pub clip : ℤ → ℕ
clip (pos n) = n
clip (negsuc n) = 0
