-- ===== src/Wire.antt =====
-- Big-endian integers in a byte buffer: src/lib/datatypes/ssh-uint.c.
-- A `char *` is the list of the bytes from there to the end of its buffer. A read or a write behind
-- that end is `none`.
mod Tests
pub mod RoundTrip
use osns.Memory.{copy_to}
use osns.Prelude.{ℕ, ◌+◌, ◌*◌, ◌/◌, ◌%◌, ◌^◌, ◌<◌, bit_and, bit_or, Option, none, some}
use osns.Prelude.{List, [], ◌∷◌, ◌++◌}

abbrev pub IsByte : ℕ → Type 0
IsByte b = b < 256

abbrev pub IsU32 : ℕ → Type 0
IsU32 v = v < 2 ^ 32

abbrev pub IsU64 : ℕ → Type 0
IsU64 v = v < 2 ^ 64

abbrev pub IsU16 : ℕ → Type 0
IsU16 v = v < 2 ^ 16

-- `(value >> k) & 0xFF`
unfoldable pub octet : ℕ → ℕ → ℕ
octet value k = bit_and (value / 2 ^ k) 0xff

unfoldable pub two : ℕ → List ℕ
two value = octet value 8 ∷ octet value 0 ∷ []

unfoldable pub four : ℕ → List ℕ
four value = octet value 24 ∷ octet value 16 ∷ octet value 8 ∷ octet value 0 ∷ []

unfoldable pub eight : ℕ → List ℕ
eight value =
    octet value 56
    ∷ octet value 48
    ∷ octet value 40
    ∷ octet value 32
    ∷ octet value 24
    ∷ octet value 16
    ∷ octet value 8
    ∷ octet value 0
    ∷ []

unfoldable pub store_uint16 : List ℕ → ℕ → Option (List ℕ)
store_uint16 buff value = copy_to buff (two value)

unfoldable pub store_uint32 : List ℕ → ℕ → Option (List ℕ)
store_uint32 buff value = copy_to buff (four value)

unfoldable pub store_uint64 : List ℕ → ℕ → Option (List ℕ)
store_uint64 buff value = copy_to buff (eight value)

unfoldable pub get_uint16 : List ℕ → Option ℕ
get_uint16 (b0 ∷ b1 ∷ _) = some (bit_or (b0 * 2 ^ 8) b1 % 2 ^ 16)
get_uint16 _ = none

-- `(b0 << 24) | (b1 << 16) | (b2 << 8) | b3`
unfoldable pub join_four : ℕ → ℕ → ℕ → ℕ → ℕ
join_four b0 b1 b2 b3 = bit_or (bit_or (bit_or (b0 * 2 ^ 24) (b1 * 2 ^ 16)) (b2 * 2 ^ 8)) b3

unfoldable pub get_uint32 : List ℕ → Option ℕ
get_uint32 (b0 ∷ b1 ∷ b2 ∷ b3 ∷ _) = some (join_four b0 b1 b2 b3)
get_uint32 _ = none

-- The upper half: `(b0 << 56) | (b1 << 48) | (b2 << 40) | (b3 << 32)`
unfoldable pub upper_four : ℕ → ℕ → ℕ → ℕ → ℕ
upper_four b0 b1 b2 b3 =
    bit_or (bit_or (bit_or (b0 * 2 ^ 56) (b1 * 2 ^ 48)) (b2 * 2 ^ 40)) (b3 * 2 ^ 32)

unfoldable pub get_uint64 : List ℕ → Option ℕ
get_uint64 (b0 ∷ b1 ∷ b2 ∷ b3 ∷ b4 ∷ b5 ∷ b6 ∷ b7 ∷ _) =
    some (bit_or (upper_four b0 b1 b2 b3) (join_four b4 b5 b6 b7))
get_uint64 _ = none
