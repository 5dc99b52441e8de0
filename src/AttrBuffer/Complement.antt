-- ===== src/AttrBuffer/Complement.antt =====
-- Signed seconds as two's complement.
use osns.Prelude.{ℕ, ◌+◌, ◌-◌, ◌^◌, ◌<◌, ◌≡◌, arith, some}
use osns.Prelude.Int.{ℤ, pos, negsuc, IsSymmetric64}
use osns.AttrBuffer.{convert_int64_2c, convert_2c_int64}

-- Every signed number of 64 bits but the least one is converted to a pattern of 64 bits, and comes back
-- from it.
convert_2c-int64 :
    (x : ℤ)
    → IsSymmetric64 x
    → (w : ℕ) × (convert_int64_2c x ≡ some w) × (w < 2 ^ 64) × (convert_2c_int64 w ≡ x)
unfolding convert_int64_2c convert_2c_int64
convert_2c-int64 (pos n) h = (n, ground arith, omega arith, ground arith)
convert_2c-int64 (negsuc n) h = (2 ^ 64 - (n + 1), ground arith, omega arith, ground arith)
