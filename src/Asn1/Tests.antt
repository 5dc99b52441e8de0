-- ===== src/Asn1/Tests.antt =====
-- The theorems on tags and lengths at concrete buffers.
use osns.Prelude.{ℕ, ◌+◌, ◌<◌, ◌≡◌, refl, arith, some, List, [], ◌∷◌, ◌++◌, length}
use osns.Prelude.Int.{pos}
use osns.Asn1.{tag_integer, asn1_read_length, asn1_read_tlv}
use osns.Asn1.Lengths.{der_length}
use osns.Asn1.Reads.{der, tlv_of, ReadWithin, asn1_read_tlv-bounds, asn1_read_tlv-der}

abbrev value : List ℕ
value = 1 ∷ 2 ∷ 3 ∷ []

short_length : 1 + length (der_length 3) < 6
unfolding der_length
short_length = omega arith

asn1_read_tlv-der_example :
    asn1_read_tlv (der tag_integer value ++ (9 ∷ [])) 6
    ≡ some (pos 0, tlv_of tag_integer 3 (value ++ (9 ∷ [])))
asn1_read_tlv-der_example =
    asn1_read_tlv-der tag_integer value (9 ∷ []) 6 (omega arith) short_length (omega arith)

-- The first bytes name three more bytes for a length.
asn1_read_tlv-bounds_example :
    ReadWithin
      (0x30 ∷ 0x83 ∷ 0 ∷ 0 ∷ 5 ∷ 7 ∷ [])
      6
      (asn1_read_tlv (0x30 ∷ 0x83 ∷ 0 ∷ 0 ∷ 5 ∷ 7 ∷ []) 6)
asn1_read_tlv-bounds_example =
    asn1_read_tlv-bounds (0x30 ∷ 0x83 ∷ 0 ∷ 0 ∷ 5 ∷ 7 ∷ []) 6 (omega arith)

long_form : asn1_read_length (0x82 ∷ 1 ∷ 4 ∷ 0 ∷ []) 0 4 ≡ some (3, 260)
unfolding asn1_read_length
long_form = refl
