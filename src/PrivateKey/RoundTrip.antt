-- ===== src/PrivateKey/RoundTrip.antt =====
-- Keys in DER are read as the numbers that they hold.
use osns.Prelude.{ℕ, ◌<◌, ◌≡◌, refl, arith, some, List, [], ◌∷◌, ◌++◌, length, length-append}
use osns.Asn1.{tag_integer, tag_sequence}
use osns.Asn1.Lengths.{der_length}
use osns.Asn1.Reads.{der}
use osns.PrivateKey.{Gcrypt, got, skip_tagged, asn1_read_parameter, read_param_skey_dss_asn1}
use osns.PrivateKey.Places.{
  place, IsInt, skip_tagged-integer, asn1_read_parameter-der, skip_tagged-sequence,
}

-- Integers one after another.
unfoldable pub ders : List (List ℕ) → List ℕ
ders [] = []
ders (xs ∷ xss) = der tag_integer xs ++ ders xss

-- A sequence of integers.
unfoldable pub sequence : List (List ℕ) → List ℕ
sequence xss = tag_sequence ∷ (der_length (length (ders xss)) ++ ders xss)

-- A number of libgcrypt and its bytes, of which there is at least one.
pub record Holds {M : Type 0} (gcry : Gcrypt M) (m : M) (xs : List ℕ) : Type 0 where
  pub scanned_eq : gcry.scan xs ≡ some m
  pub some_bytes : 0 < length xs

pub tail-IsInt : (xs : List ℕ) (xss : List (List ℕ)) → IsInt (ders (xs ∷ xss)) → IsInt (ders xss)
unfolding ders
tail-IsInt xs xss small = omega (arith, length-append (der tag_integer xs) (ders xss))

pub sequence-IsInt : (xss : List (List ℕ)) → IsInt (sequence xss) → IsInt (ders xss)
unfolding sequence
sequence-IsInt xss small = omega (arith, length-append (der_length (length (ders xss))) (ders xss))

length-ders : (xs : List ℕ) (xss : List (List ℕ)) → 0 < length xs → 1 < length (ders (xs ∷ xss))
unfolding ders der
length-ders xs xss some_bytes = omega (
  arith,
  length-append (der tag_integer xs) (ders xss),
  length-append (der_length (length xs)) xs,
)

pub skip_sequence :
    (xs : List ℕ) (xss : List (List ℕ))
    → 0 < length xs
    → IsInt (sequence (xs ∷ xss))
    → skip_tagged tag_sequence (place (sequence (xs ∷ xss))) ≡ got (place (ders (xs ∷ xss)))
unfolding sequence
skip_sequence xs xss some_bytes small =
    skip_tagged-sequence (length (ders (xs ∷ xss))) (ders (xs ∷ xss))
      (omega (arith, sequence-IsInt (xs ∷ xss) small)) (length-ders xs xss some_bytes) small

pub skip_integer :
    (xs : List ℕ) (xss : List (List ℕ))
    → 0 < length xs
    → IsInt (ders (xs ∷ xss))
    → skip_tagged tag_integer (place (ders (xs ∷ xss))) ≡ got (place (ders xss))
unfolding ders
skip_integer xs xss some_bytes small = skip_tagged-integer xs (ders xss) some_bytes small

module _ {M : Type 0} (gcry : Gcrypt M) where
  pub read_integer :
      {m : M} (xs : List ℕ) (xss : List (List ℕ))
      → Holds gcry m xs
      → IsInt (ders (xs ∷ xss))
      → asn1_read_parameter gcry (place (ders (xs ∷ xss))) ≡ got (m, place (ders xss))
  unfolding ders
  read_integer {m} xs xss holds small =
      asn1_read_parameter-der xs (ders xss) (holds.some_bytes) small gcry m (holds.scanned_eq)

  -- A sequence in DER of a version and the numbers p, q, g, y and x, below 2 ^ 31 bytes, is read as the key
  -- with these numbers, if libgcrypt takes the bytes of each.
  read_param_skey_dss_asn1-sequence :
      {p q g y x : M} (version ps qs gs ys xs : List ℕ)
      → 0 < length version
      → Holds gcry p ps
      → Holds gcry q qs
      → Holds gcry g gs
      → Holds gcry y ys
      → Holds gcry x xs
      → let buffer = sequence (version ∷ ps ∷ qs ∷ gs ∷ ys ∷ xs ∷ []) in
        IsInt buffer
        → read_param_skey_dss_asn1 gcry buffer (length buffer)
          ≡ got (record { p = some p; q = some q; g = some g; y = some y; x = some x })
  unfolding read_param_skey_dss_asn1
  read_param_skey_dss_asn1-sequence version ps qs gs ys xs some_bytes hp hq hg hy hx small =
      let s0 = sequence-IsInt (version ∷ ps ∷ qs ∷ gs ∷ ys ∷ xs ∷ []) small in
      let s1 = tail-IsInt version (ps ∷ qs ∷ gs ∷ ys ∷ xs ∷ []) s0 in
      let s2 = tail-IsInt ps (qs ∷ gs ∷ ys ∷ xs ∷ []) s1 in
      let s3 = tail-IsInt qs (gs ∷ ys ∷ xs ∷ []) s2 in
      let s4 = tail-IsInt gs (ys ∷ xs ∷ []) s3 in
      let s5 = tail-IsInt ys (xs ∷ []) s4 in
      rw
        (
          skip_sequence version (ps ∷ qs ∷ gs ∷ ys ∷ xs ∷ []) some_bytes small,
          skip_integer version (ps ∷ qs ∷ gs ∷ ys ∷ xs ∷ []) some_bytes s0,
          read_integer ps (qs ∷ gs ∷ ys ∷ xs ∷ []) hp s1,
          read_integer qs (gs ∷ ys ∷ xs ∷ []) hq s2,
          read_integer gs (ys ∷ xs ∷ []) hg s3,
          read_integer ys (xs ∷ []) hy s4,
          read_integer xs [] hx s5,
        )
        refl
