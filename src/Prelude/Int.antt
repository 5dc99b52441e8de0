-- ===== src/Prelude/Int.antt =====
-- Signed machine integers: an integer, and the two's complement patterns of 64 bits.
use Prim.Native.Nat.{ℕ, suc, ◌^◌, ◌≤◌}

-- `negsuc n` is -(n + 1).
pub data ℤ : Type 0 where
  pos : ℕ → ℤ
  negsuc : ℕ → ℤ

-- The integers from -(2 ^ 63 - 1) to 2 ^ 63 - 1.
abbrev pub IsSymmetric64 : ℤ → Type 0
IsSymmetric64 (pos n) = suc n ≤ 2 ^ 63
IsSymmetric64 (negsuc n) = suc (suc n) ≤ 2 ^ 63
