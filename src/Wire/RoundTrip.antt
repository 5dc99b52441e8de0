-- ===== src/Wire/RoundTrip.antt =====
-- What is stored is read back, and what is read is stored again.
use osns.Prelude.{ℕ, ◌+◌, ◌*◌, ◌/◌, ◌%◌, ◌^◌, ◌≤◌, ◌<◌, ◌≡◌, refl, sym, arith, ap, ◌∙◌}
use mathlib.Core.Path.{ap₂}
use osns.Prelude.{some, none, List, [], ◌∷◌, ◌++◌, length, All, bit_or}
use osns.Prelude.Bits.{bit_or-field, bit_and-low}
use osns.Memory.{copy_to-append}
use osns.Wire.{IsByte, IsU16, IsU32, IsU64, octet, two, four, eight}
use osns.Wire.{store_uint16, store_uint32, store_uint64}
use osns.Wire.{join_four, upper_four, get_uint16, get_uint32, get_uint64}

pub octet_lem : (v k : ℕ) → octet v k ≡ v / 2 ^ k % 256
unfolding octet
octet_lem v k = bit_and-low 8 (v / 2 ^ k)

pub join_four_lem :
    (b0 b1 b2 b3 : ℕ)
    → IsByte b1
    → IsByte b2
    → IsByte b3
    → join_four b0 b1 b2 b3 ≡ b0 * 2 ^ 24 + b1 * 2 ^ 16 + b2 * 2 ^ 8 + b3
unfolding join_four
join_four_lem b0 b1 b2 b3 h1 h2 h3 = ground (
  arith,
  bit_or-field 24 (b0 * 2 ^ 24) (b1 * 2 ^ 16),
  bit_or-field 16 (b0 * 2 ^ 24 + b1 * 2 ^ 16) (b2 * 2 ^ 8),
  bit_or-field 8 (b0 * 2 ^ 24 + b1 * 2 ^ 16 + b2 * 2 ^ 8) b3,
)

upper_four_lem :
    (b0 b1 b2 b3 : ℕ)
    → IsByte b1
    → IsByte b2
    → IsByte b3
    → upper_four b0 b1 b2 b3 ≡ b0 * 2 ^ 56 + b1 * 2 ^ 48 + b2 * 2 ^ 40 + b3 * 2 ^ 32
unfolding upper_four
upper_four_lem b0 b1 b2 b3 h1 h2 h3 = ground (
  arith,
  bit_or-field 56 (b0 * 2 ^ 56) (b1 * 2 ^ 48),
  bit_or-field 48 (b0 * 2 ^ 56 + b1 * 2 ^ 48) (b2 * 2 ^ 40),
  bit_or-field 40 (b0 * 2 ^ 56 + b1 * 2 ^ 48 + b2 * 2 ^ 40) (b3 * 2 ^ 32),
)

-- The number that the bytes stand for, the most significant byte first.
unfoldable pub big_endian : ℕ → List ℕ → ℕ
big_endian acc [] = acc
big_endian acc (b ∷ bs) = big_endian (acc * 256 + b) bs

-- A read is the big-endian value of the first bytes, whatever stands behind them.
pub get_uint32-big_endian :
    (b0 b1 b2 b3 : ℕ) (rest : List ℕ)
    → All IsByte (b0 ∷ b1 ∷ b2 ∷ b3 ∷ [])
    → get_uint32 (b0 ∷ b1 ∷ b2 ∷ b3 ∷ rest) ≡ some (big_endian 0 (b0 ∷ b1 ∷ b2 ∷ b3 ∷ []))
unfolding get_uint32 big_endian
get_uint32-big_endian b0 b1 b2 b3 rest h =
    ap some (omega (arith, join_four_lem b0 b1 b2 b3 h.1.0 h.1.1.0 h.1.1.1.0))

four_lem : (v : ℕ) → four v ≡ v / 2 ^ 24 % 256 ∷ v / 2 ^ 16 % 256 ∷ v / 2 ^ 8 % 256 ∷ v % 256 ∷ []
unfolding four
four_lem v = ground (arith, octet_lem v 24, octet_lem v 16, octet_lem v 8, octet_lem v 0)

-- What `store_uint32` writes is read back by `get_uint32`.
pub get-four : (v : ℕ) (rest : List ℕ) → IsU32 v → get_uint32 (four v ++ rest) ≡ some v
unfolding get_uint32
get-four v rest h = rw four_lem (
    ap some (
      omega (
        arith,
        join_four_lem (v / 2 ^ 24 % 256) (v / 2 ^ 16 % 256) (v / 2 ^ 8 % 256) (v % 256)
            (omega arith) (omega arith) (omega arith),
      )))

pub get-two : (v : ℕ) (rest : List ℕ) → IsU16 v → get_uint16 (two v ++ rest) ≡ some v
unfolding get_uint16 two
get-two v rest h =
    ground (arith, octet_lem v 8, octet_lem v 0, bit_or-field 8 (v / 2 ^ 8 % 256 * 2 ^ 8) (v % 256))

pub get-eight : (v : ℕ) (rest : List ℕ) → IsU64 v → get_uint64 (eight v ++ rest) ≡ some v
unfolding get_uint64 eight
get-eight v rest h =
    let hi =
      upper_four_lem (v / 2 ^ 56 % 256) (v / 2 ^ 48 % 256) (v / 2 ^ 40 % 256) (v / 2 ^ 32 % 256)
        (omega arith) (omega arith) (omega arith) in
    let lo =
      join_four_lem (v / 2 ^ 24 % 256) (v / 2 ^ 16 % 256) (v / 2 ^ 8 % 256) (v / 2 ^ 0 % 256)
        (omega arith) (omega arith) (omega arith) in
    simp octet_lem
      (ap some (ap₂ bit_or hi lo ∙ bit_or-field 32 _ _ (omega arith) (omega arith) ∙ omega arith))

-- A store of a 16-bit value over 2 bytes succeeds, leaves what is behind them, and a read of the same
-- width gives the value back.
pub get-store_uint16 :
    (v : ℕ) (old rest : List ℕ)
    → IsU16 v
    → length old ≡ 2
    → (b : List ℕ) × (store_uint16 (old ++ rest) v ≡ some (b ++ rest))
      × (length b ≡ 2)
      × (get_uint16 (b ++ rest) ≡ some v)
unfolding store_uint16 two
get-store_uint16 v old rest h n = (two v, copy_to-append (two v) old rest n, refl, get-two v rest h)

-- A store of a 32-bit value over 4 bytes succeeds, leaves what is behind them, and a read of the same
-- width gives the value back.
pub get-store_uint32 :
    (v : ℕ) (old rest : List ℕ)
    → IsU32 v
    → length old ≡ 4
    → (b : List ℕ) × (store_uint32 (old ++ rest) v ≡ some (b ++ rest))
      × (length b ≡ 4)
      × (get_uint32 (b ++ rest) ≡ some v)
unfolding store_uint32 four
get-store_uint32 v old rest h n =
    (four v, copy_to-append (four v) old rest n, refl, get-four v rest h)

-- A store of a 64-bit value over 8 bytes succeeds, leaves what is behind them, and a read of the same
-- width gives the value back.
pub get-store_uint64 :
    (v : ℕ) (old rest : List ℕ)
    → IsU64 v
    → length old ≡ 8
    → (b : List ℕ) × (store_uint64 (old ++ rest) v ≡ some (b ++ rest))
      × (length b ≡ 8)
      × (get_uint64 (b ++ rest) ≡ some v)
unfolding store_uint64 eight
get-store_uint64 v old rest h n =
    (eight v, copy_to-append (eight v) old rest n, refl, get-eight v rest h)

-- Four bytes that are read as `v` are the bytes that a store of `v` writes.
pub four-get :
    (b0 b1 b2 b3 v : ℕ) (rest : List ℕ)
    → All IsByte (b0 ∷ b1 ∷ b2 ∷ b3 ∷ [])
    → get_uint32 (b0 ∷ b1 ∷ b2 ∷ b3 ∷ rest) ≡ some v
    → IsU32 v × (four v ≡ b0 ∷ b1 ∷ b2 ∷ b3 ∷ [])
unfolding get_uint32
four-get b0 b1 b2 b3 v rest h e =
    let w : v ≡ b0 * 2 ^ 24 + b1 * 2 ^ 16 + b2 * 2 ^ 8 + b3 =
      ground (arith, join_four_lem b0 b1 b2 b3) in
    (omega arith, rw four_lem (ground arith))

pub length-four : (v : ℕ) → length (four v) ≡ 4
unfolding four
length-four v = refl

pub length-eight : (v : ℕ) → length (eight v) ≡ 8
unfolding eight
length-eight v = refl

-- A store over four bytes or more leaves what is behind the four.
pub store-four :
    (v : ℕ) (old rest : List ℕ)
    → length old ≡ 4
    → store_uint32 (old ++ rest) v ≡ some (four v ++ rest)
unfolding store_uint32
store-four v old rest n = copy_to-append (four v) old rest (n ∙ sym (length-four v))

-- Four bytes are enough for a read.
pub get_uint32-total : (b : List ℕ) → 4 ≤ length b → (n : ℕ) × (get_uint32 b ≡ some n)
unfolding get_uint32
get_uint32-total [] h = absurd (omega arith)
get_uint32-total (b0 ∷ []) h = absurd (omega arith)
get_uint32-total (b0 ∷ b1 ∷ []) h = absurd (omega arith)
get_uint32-total (b0 ∷ b1 ∷ b2 ∷ []) h = absurd (omega arith)
get_uint32-total (b0 ∷ b1 ∷ b2 ∷ b3 ∷ b) h = (_, refl)

pub get_uint32-short : (b : List ℕ) → length b < 4 → get_uint32 b ≡ none
unfolding get_uint32
get_uint32-short [] h = refl
get_uint32-short (b0 ∷ []) h = refl
get_uint32-short (b0 ∷ b1 ∷ []) h = refl
get_uint32-short (b0 ∷ b1 ∷ b2 ∷ []) h = refl
get_uint32-short (b0 ∷ b1 ∷ b2 ∷ b3 ∷ b) h = absurd (omega arith)

pub get_uint64-short : (b : List ℕ) → length b < 4 → get_uint64 b ≡ none
unfolding get_uint64
get_uint64-short [] h = refl
get_uint64-short (b0 ∷ []) h = refl
get_uint64-short (b0 ∷ b1 ∷ []) h = refl
get_uint64-short (b0 ∷ b1 ∷ b2 ∷ []) h = refl
get_uint64-short (b0 ∷ b1 ∷ b2 ∷ b3 ∷ b) h = absurd (omega arith)
