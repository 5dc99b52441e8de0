-- ===== src/PrivateKey/Places.antt =====
-- One value of a key in DER is read, and the place moves behind it.
use osns.Prelude.{
  ℕ, zero, suc, ◌+◌, ◌-◌, ◌^◌, ◌<◌, ◌≡◌, refl, arith, none, some, List, [], ◌∷◌, ◌++◌, length,
  length-append, drop-append,
}
use osns.Memory.{read_bytes, bytes_at, read_bytes-append}
use osns.SshString.{u32}
use osns.Asn1.{tag_integer, tag_sequence}
use osns.Asn1.Lengths.{der_length, length-der_length}
use osns.Asn1.Reads.{der, tlv_of, asn1_read_tlv-der, asn1_read_tlv-der_length}
use osns.PrivateKey.{
  Gcrypt, fault, got, Place, of_result, pass, read_tagged, skip_tagged, scanned, scan_bytes,
  asn1_read_mpint_from_tlv, asn1_read_parameter,
}

-- The place at the front of all that is left.
abbrev pub place : List ℕ → Place
place mem = record { mem = mem; left = length mem }

-- Buffers below 2 ^ 31 bytes.
abbrev pub IsInt : List ℕ → Type 0
IsInt mem = length mem < 2 ^ 31

length-der :
    (tag : ℕ) (xs : List ℕ)
    → length (der tag xs) ≡ 1 + (length (der_length (length xs)) + length xs)
unfolding der
length-der tag xs = omega (arith, length-append (der_length (length xs)) xs)

-- Behind an integer.
pass-integer :
    (xs rest : List ℕ)
    → IsInt (der tag_integer xs ++ rest)
    → pass (tlv_of tag_integer (length xs) (xs ++ rest)) (place (der tag_integer xs ++ rest))
      ≡ place rest
unfolding pass
pass-integer xs rest small =
    let whole = length-append (der tag_integer xs) rest in
    let len = length-der tag_integer xs in
    let bytes : u32 (1 + (length (der_length (length xs)) + length xs))
        ≡ length (der tag_integer xs) =
      omega arith in
    let left : u32 (length (der tag_integer xs ++ rest) + 2 ^ 32 - length (der tag_integer xs))
        ≡ length rest =
      omega arith in
    rw (bytes, drop-append (der tag_integer xs) rest, left) refl

module _ (xs rest : List ℕ) (some_bytes : 0 < length xs)
    (small : IsInt (der tag_integer xs ++ rest)) where
  read_tagged-integer :
      read_tagged tag_integer (place (der tag_integer xs ++ rest))
      ≡ got (tlv_of tag_integer (length xs) (xs ++ rest))
  unfolding read_tagged of_result
  read_tagged-integer =
      let whole = length-append (der tag_integer xs) rest in
      let len = length-der tag_integer xs in
      rw
        (asn1_read_tlv-der tag_integer xs rest (length (der tag_integer xs ++ rest)) (omega arith)
          (omega arith) small)
        refl

  pub skip_tagged-integer :
      skip_tagged tag_integer (place (der tag_integer xs ++ rest)) ≡ got (place rest)
  unfolding skip_tagged
  skip_tagged-integer = rw (read_tagged-integer, pass-integer xs rest small) refl

  pub asn1_read_parameter-der :
      {M : Type 0} (gcry : Gcrypt M) (m : M)
      → gcry.scan xs ≡ some m
      → asn1_read_parameter gcry (place (der tag_integer xs ++ rest)) ≡ got (m, place rest)
  unfolding asn1_read_parameter asn1_read_mpint_from_tlv scan_bytes scanned bytes_at
  asn1_read_parameter-der gcry m known =
      rw (read_tagged-integer, read_bytes-append xs rest, known, pass-integer xs rest small) refl

-- The header of a sequence is passed, whatever length it names.
pub skip_tagged-sequence :
    (n : ℕ) (rest : List ℕ)
    → n < 2 ^ 32
    → 1 < length rest
    → IsInt (tag_sequence ∷ (der_length n ++ rest))
    → skip_tagged tag_sequence (place (tag_sequence ∷ (der_length n ++ rest))) ≡ got (place rest)
unfolding skip_tagged read_tagged of_result pass
skip_tagged-sequence n rest fits more small =
    let whole = length-append (der_length n) rest in
    let size = length (tag_sequence ∷ (der_length n ++ rest)) in
    let (_, short) = length-der_length n in
    let bytes : u32 (1 + length (der_length n)) ≡ suc (length (der_length n)) = omega arith in
    let left : u32 (size + 2 ^ 32 - suc (length (der_length n))) ≡ length rest = omega arith in
    rw
      (
        asn1_read_tlv-der_length tag_sequence n size rest fits (omega arith) small,
        bytes,
        drop-append (der_length n) rest,
        left,
      )
      refl

read_bytes-short : (n : ℕ) (mem : List ℕ) → length mem < n → bytes_at (some mem) n ≡ none
unfolding bytes_at read_bytes
read_bytes-short n mem short = go n mem short
  where
    go : (k : ℕ) (l : List ℕ) → length l < k → read_bytes l k ≡ none
    go zero l h = elim h [ ]
    go (suc k) [] h = refl
    go (suc k) (b ∷ l) h = rw (go k l (omega arith)) refl

-- An integer that is cut off is read behind the end of the buffer.
pub asn1_read_parameter-cut :
    {M : Type 0} (gcry : Gcrypt M) (n : ℕ) (behind : List ℕ)
    → n < 2 ^ 32
    → 0 < length behind
    → length behind < n
    → IsInt (tag_integer ∷ (der_length n ++ behind))
    → asn1_read_parameter gcry (place (tag_integer ∷ (der_length n ++ behind))) ≡ fault
unfolding asn1_read_parameter read_tagged of_result asn1_read_mpint_from_tlv scan_bytes
asn1_read_parameter-cut gcry n behind fits some_bytes short small =
    let whole = length-append (der_length n) behind in
    rw
      (
        asn1_read_tlv-der_length tag_integer n (length (tag_integer ∷ (der_length n ++ behind)))
            behind fits (omega arith) small,
        read_bytes-short n behind short,
      )
      refl
