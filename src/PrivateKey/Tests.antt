-- ===== src/PrivateKey/Tests.antt =====
-- The theorems on keys with small numbers in place of those of libgcrypt.
use osns.Prelude.{
  ℕ, zero, suc, ◌+◌, ◌*◌, ◌/◌, ◌%◌, ◌^◌, ◌<◌, ◌≤◌, ◌≡◌, refl, ap, arith, some, List, [], ◌∷◌, ◌++◌,
  ◌==◌, ◌&&◌, if◌then◌else◌, ltb, length,
}
use osns.CString.{Sign, less, same, more}
use osns.Asn1.{tag_integer, tag_sequence}
use osns.Asn1.Lengths.{number, der_length}
use osns.Asn1.Reads.{der}
use osns.PrivateKey.{Gcrypt, fault, got, get_nbytes_ssh_mpint, read_skey_rsa_asn1}
use osns.PrivateKey.Places.{IsInt}
use osns.PrivateKey.RoundTrip.{Holds, sequence}
use osns.PrivateKey.Rsa.{arranged, read_skey_rsa_asn1-sequence, read_skey_rsa_asn1-cut}
use osns.PrivateKey.Bytes.{get_nbytes_ssh_mpint_exact}

abbrev nbits : ℕ → ℕ → ℕ
nbits zero n = 0
nbits (suc k) n = if n == 0 then 0 else 1 + nbits k (n / 2)

-- The least number whose product with `a` is 1 modulo `m`.
abbrev inverse : ℕ → ℕ → ℕ → ℕ
inverse zero a m = 0
inverse (suc k) a m = if a * k % m == 1 then k else inverse k a m

abbrev compare_numbers : ℕ → ℕ → Sign
compare_numbers a b = if ltb a b then less else if ltb b a then more else same

abbrev numbers : Gcrypt ℕ
numbers = record {
  scan = λ bytes. some (number bytes);
  get_nbits = λ m. nbits 16 m;
  test_bit = λ m k. ltb k 16 && (m / 2 ^ k % 2 == 1);
  cmp = compare_numbers;
  invm = λ x a m. inverse m a m;
}

byte-Holds : (b : ℕ) → Holds numbers b (b ∷ [])
unfolding osns.Asn1.Lengths.number_from
byte-Holds b = record { scanned_eq = ap some (omega arith); some_bytes = omega arith }

has_byte :
    (0 < get_nbytes_ssh_mpint numbers (some 5))
    × (0 < get_nbytes_ssh_mpint numbers (some 3))
    × (0 < get_nbytes_ssh_mpint numbers (some 2))
unfolding get_nbytes_ssh_mpint
has_byte = (omega arith, omega arith, omega arith)

abbrev integers : List (List ℕ)
integers =
    (0 ∷ [])
    ∷ (15 ∷ [])
    ∷ (3 ∷ [])
    ∷ (3 ∷ [])
    ∷ (5 ∷ [])
    ∷ (3 ∷ [])
    ∷ (3 ∷ [])
    ∷ (1 ∷ [])
    ∷ (2 ∷ [])
    ∷ []

integers-IsInt : IsInt (sequence integers)
unfolding sequence osns.PrivateKey.RoundTrip.ders der der_length
integers-IsInt = omega arith

cut-IsInt : IsInt (
    tag_sequence
    ∷ (der_length 900
        ++ (der tag_integer (0 ∷ []) ++ (tag_integer ∷ (der_length 200 ++ (7 ∷ 7 ∷ []))))))
unfolding der der_length
cut-IsInt = omega arith

-- The key of 5 and 3: p is more than q.
read_skey_rsa_asn1-sequence_example :
    let buffer = sequence integers in
    read_skey_rsa_asn1 numbers buffer (length buffer) ≡ got (arranged numbers more 15 3 3 5 3 2)
read_skey_rsa_asn1-sequence_example =
    read_skey_rsa_asn1-sequence numbers (0 ∷ []) (15 ∷ []) (3 ∷ []) (3 ∷ []) (5 ∷ []) (3 ∷ [])
      (3 ∷ []) (1 ∷ []) (2 ∷ []) (omega arith) (byte-Holds 15) (byte-Holds 3) (byte-Holds 3)
      (byte-Holds 5) (byte-Holds 3) (omega arith) (omega arith) (byte-Holds 2) (has_byte.0)
      (has_byte.1) (has_byte.2) integers-IsInt

arranged_inverse : (arranged numbers more 15 3 3 5 3 2).u ≡ some 2
unfolding arranged
arranged_inverse = refl

read_skey_rsa_asn1-cut_example :
    let modulus = tag_integer ∷ (der_length 200 ++ (7 ∷ 7 ∷ [])) in
    let buffer = tag_sequence ∷ (der_length 900 ++ (der tag_integer (0 ∷ []) ++ modulus)) in
    read_skey_rsa_asn1 numbers buffer (length buffer) ≡ fault
read_skey_rsa_asn1-cut_example =
    read_skey_rsa_asn1-cut numbers (0 ∷ []) (7 ∷ 7 ∷ []) 900 200 (omega arith) (omega arith)
      (omega arith) (omega arith) (omega arith) cut-IsInt

get_nbytes_ssh_mpint_exact_example :
    (8 ≤ get_nbytes_ssh_mpint numbers (some 255) * 8)
    × (get_nbytes_ssh_mpint numbers (some 255) * 8 < 16)
get_nbytes_ssh_mpint_exact_example = get_nbytes_ssh_mpint_exact numbers 255 refl
