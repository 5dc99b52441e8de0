-- ===== src/Asn1.antt =====
-- Tags, lengths and values in DER: src/ssh/pk/asn1.c. `left` and `size` are ints, kept as their patterns
-- of 32 bits.
mod Tests
pub mod Lengths
pub mod Reads
use osns.Prelude.{
  ℕ, zero, suc, ◌+◌, ◌-◌, ◌*◌, ◌/◌, ◌^◌, ◌%◌, Bool, Option, none, some, List, [], ◌∷◌, ◌>>=◌, ◌||◌,
  ◌==◌, if◌then◌else◌, leb,
}
use osns.Prelude.Int.{ℤ, pos, negsuc}
use osns.SshString.{u32}

pub record Tlv : Type 0 where
  pub tag : ℕ
  pub len : ℕ
  pub bytes : ℕ
  pub at : Option (List ℕ)

abbrev pub tag_sequence : ℕ
tag_sequence = 0x30

abbrev pub tag_integer : ℕ
tag_integer = 0x02

-- `bound >= left`, for a bound that is not negative.
abbrev pub reaches : ℕ → ℕ → Bool
reaches bound left = leb left bound || leb (2 ^ 31) left

-- The loop over the bytes of a length.
unfoldable pub length_loop : ℕ → ℕ → List ℕ → Option ℕ
length_loop zero result mem = some result
length_loop (suc n) result [] = none
length_loop (suc n) result (b ∷ mem) = length_loop n (u32 (u32 (result * 2 ^ 8) + b)) mem

-- The result is the number of bytes, 0 for an error, and what `length` points to afterwards. `value` is
-- without its highest bit.
unfoldable pub long_length : ℕ → List ℕ → ℕ → ℕ → Option (ℕ × ℕ)
unfolding length_loop
long_length value mem length left =
    if reaches (value + 1) left
    then some (0, length)
    else (do result ← length_loop value 0 mem; some (1 + value, result))

unfoldable pub asn1_read_length : List ℕ → ℕ → ℕ → Option (ℕ × ℕ)
unfolding long_length
asn1_read_length [] length left = none
asn1_read_length (value ∷ mem) length left =
    if value / 2 ^ 7 == 1 then long_length (value - 2 ^ 7) mem length left else some (1, value)

abbrev pub tlv_init : Tlv
tlv_init = record { tag = 0; len = 0; bytes = 0; at = none }

unfoldable pub after_bytes : ℕ → List ℕ → Option (List ℕ)
after_bytes zero mem = some mem
after_bytes (suc n) [] = none
after_bytes (suc n) (b ∷ mem) = after_bytes n mem

-- The total number of bytes: a value is counted for an integer only.
abbrev pub total : Tlv → ℕ → ℕ
total tlv count =
    if tlv.tag == tag_integer then u32 (tlv.bytes + (count + tlv.len)) else u32 (tlv.bytes + count)

unfoldable pub finish_tlv : List ℕ → Tlv → ℕ → Option (ℤ × Tlv)
unfolding after_bytes
finish_tlv mem tlv zero = some (negsuc 0, tlv)
finish_tlv mem tlv (suc n) = do
  value ← after_bytes (suc n) mem
  some (pos 0, record tlv { at = some value; bytes = total tlv (suc n) })

unfoldable pub read_behind_tag : List ℕ → ℕ → ℕ → Option (ℤ × Tlv)
unfolding asn1_read_length finish_tlv
read_behind_tag mem tag left = do
  (count, len) ← asn1_read_length mem 0 left
  finish_tlv mem (record tlv_init { tag = tag; bytes = 1; len = len }) count

unfoldable pub read_from_tag : List ℕ → ℕ → Option (ℤ × Tlv)
unfolding read_behind_tag
read_from_tag [] left = none
read_from_tag (tag ∷ mem) left = read_behind_tag mem tag (left - 1)

unfoldable pub asn1_read_tlv : List ℕ → ℕ → Option (ℤ × Tlv)
unfolding read_from_tag
asn1_read_tlv mem size =
    if reaches 2 size then some (negsuc 0, tlv_init) else read_from_tag mem size
