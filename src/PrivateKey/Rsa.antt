-- ===== src/PrivateKey/Rsa.antt =====
-- RSA keys in DER: read_skey_rsa_asn1 of src/ssh/pk/pk-read-private.c.
use osns.Prelude.{
  ℕ, ◌^◌, ◌<◌, ◌≡◌, refl, ◌∙◌, arith, some, List, [], ◌∷◌, ◌++◌, length, length-append,
}
use osns.CString.{Sign, less, same, more}
use osns.Asn1.{tag_integer, tag_sequence}
use osns.Asn1.Lengths.{der_length}
use osns.Asn1.Reads.{der}
use osns.PrivateKey.{
  Gcrypt, fault, got, RsaKey, get_nbytes_ssh_mpint, clear_incomplete, order_by, order_primes,
  compare_ssh_mpint, invm_ssh_mpint, read_skey_rsa_asn1,
}
use osns.PrivateKey.Places.{
  IsInt, skip_tagged-integer, skip_tagged-sequence, asn1_read_parameter-cut,
}
use osns.PrivateKey.RoundTrip.{
  sequence, Holds, tail-IsInt, sequence-IsInt, skip_sequence, skip_integer, read_integer,
}

module _ {M : Type 0} (gcry : Gcrypt M) where
  -- The smaller of the primes is p, and u belongs to them.
  unfoldable pub arranged : Sign → M → M → M → M → M → M → RsaKey M
  arranged less n e d p q u = record {
    n = some n;
    e = some e;
    d = some d;
    p = some p;
    q = some q;
    u = some u;
  }
  arranged same n e d p q u = record {
    n = some n;
    e = some e;
    d = some d;
    p = some p;
    q = some q;
    u = some u;
  }
  arranged more n e d p q u = record {
    n = some n;
    e = some e;
    d = some d;
    p = some q;
    q = some p;
    u = some (gcry.invm u q p);
  }

  order_by-arranged :
      (s : Sign) (n e d p q u : M)
      → order_by gcry s
          (record { n = some n; e = some e; d = some d; p = some p; q = some q; u = some u })
        ≡ got (arranged s n e d p q u)
  unfolding order_by arranged invm_ssh_mpint
  order_by-arranged less n e d p q u = refl
  order_by-arranged same n e d p q u = refl
  order_by-arranged more n e d p q u = refl

  clear_incomplete-full :
      (key : RsaKey M)
      → 0 < get_nbytes_ssh_mpint gcry key.p
      → 0 < get_nbytes_ssh_mpint gcry key.q
      → 0 < get_nbytes_ssh_mpint gcry key.u
      → clear_incomplete gcry key ≡ key
  unfolding clear_incomplete
  clear_incomplete-full key hp hq hu = ground arith

  order_primes-full :
      (key : RsaKey M)
      → 0 < get_nbytes_ssh_mpint gcry key.p
      → 0 < get_nbytes_ssh_mpint gcry key.q
      → order_primes gcry key ≡ order_by gcry (compare_ssh_mpint gcry key.p key.q) key
  unfolding order_primes
  order_primes-full key hp hq = ground arith

  -- A sequence in DER of a version, the numbers n, e, d, p and q, two exponents and u, below 2 ^ 31 bytes,
  -- is read as the key with these numbers, if libgcrypt takes the bytes of each and gives p, q and u at
  -- least one byte; where p is more than q, they change places, and u is computed anew.
  pub read_skey_rsa_asn1-sequence :
      {n e d p q u : M} (version ns es ds ps qs exponent1 exponent2 us : List ℕ)
      → 0 < length version
      → Holds gcry n ns
      → Holds gcry e es
      → Holds gcry d ds
      → Holds gcry p ps
      → Holds gcry q qs
      → 0 < length exponent1
      → 0 < length exponent2
      → Holds gcry u us
      → 0 < get_nbytes_ssh_mpint gcry (some p)
      → 0 < get_nbytes_ssh_mpint gcry (some q)
      → 0 < get_nbytes_ssh_mpint gcry (some u)
      → let buffer =
          sequence (version ∷ ns ∷ es ∷ ds ∷ ps ∷ qs ∷ exponent1 ∷ exponent2 ∷ us ∷ []) in
        IsInt buffer
        → read_skey_rsa_asn1 gcry buffer (length buffer) ≡ got (arranged (gcry.cmp p q) n e d p q u)
  unfolding read_skey_rsa_asn1 compare_ssh_mpint
  read_skey_rsa_asn1-sequence {n} {e} {d} {p} {q} {u} version ns es ds ps qs x1 x2 us hv hn he hd hp
        hq h1 h2 hu np nq nu small =
      let s0 = sequence-IsInt (version ∷ ns ∷ es ∷ ds ∷ ps ∷ qs ∷ x1 ∷ x2 ∷ us ∷ []) small in
      let s1 = tail-IsInt version (ns ∷ es ∷ ds ∷ ps ∷ qs ∷ x1 ∷ x2 ∷ us ∷ []) s0 in
      let s2 = tail-IsInt ns (es ∷ ds ∷ ps ∷ qs ∷ x1 ∷ x2 ∷ us ∷ []) s1 in
      let s3 = tail-IsInt es (ds ∷ ps ∷ qs ∷ x1 ∷ x2 ∷ us ∷ []) s2 in
      let s4 = tail-IsInt ds (ps ∷ qs ∷ x1 ∷ x2 ∷ us ∷ []) s3 in
      let s5 = tail-IsInt ps (qs ∷ x1 ∷ x2 ∷ us ∷ []) s4 in
      let s6 = tail-IsInt qs (x1 ∷ x2 ∷ us ∷ []) s5 in
      let s7 = tail-IsInt x1 (x2 ∷ us ∷ []) s6 in
      let s8 = tail-IsInt x2 (us ∷ []) s7 in
      let key : RsaKey M = record {
        n = some n;
        e = some e;
        d = some d;
        p = some p;
        q = some q;
        u = some u;
      } in
      rw
        (
          skip_sequence version (ns ∷ es ∷ ds ∷ ps ∷ qs ∷ x1 ∷ x2 ∷ us ∷ []) hv small,
          skip_integer version (ns ∷ es ∷ ds ∷ ps ∷ qs ∷ x1 ∷ x2 ∷ us ∷ []) hv s0,
          read_integer gcry ns (es ∷ ds ∷ ps ∷ qs ∷ x1 ∷ x2 ∷ us ∷ []) hn s1,
          read_integer gcry es (ds ∷ ps ∷ qs ∷ x1 ∷ x2 ∷ us ∷ []) he s2,
          read_integer gcry ds (ps ∷ qs ∷ x1 ∷ x2 ∷ us ∷ []) hd s3,
          read_integer gcry ps (qs ∷ x1 ∷ x2 ∷ us ∷ []) hp s4,
          read_integer gcry qs (x1 ∷ x2 ∷ us ∷ []) hq s5,
          skip_integer x1 (x2 ∷ us ∷ []) h1 s6,
          skip_integer x2 (us ∷ []) h2 s7,
          read_integer gcry us [] hu s8,
          clear_incomplete-full key np nq nu,
        )
        (order_primes-full key np nq ∙ order_by-arranged (gcry.cmp p q) n e d p q u)

  -- A key that is cut off in its modulus, with at least one byte of it left, is read behind the end of its
  -- buffer, if the length that it states is one that libgcrypt reads.
  pub read_skey_rsa_asn1-cut :
      (version behind : List ℕ) (whole n : ℕ)
      → 0 < length version
      → whole < 2 ^ 32
      → n < 2 ^ 32
      → 0 < length behind
      → length behind < n
      → let modulus = tag_integer ∷ (der_length n ++ behind) in
        let buffer = tag_sequence ∷ (der_length whole ++ (der tag_integer version ++ modulus)) in
        IsInt buffer → read_skey_rsa_asn1 gcry buffer (length buffer) ≡ fault
  unfolding read_skey_rsa_asn1
  read_skey_rsa_asn1-cut version behind whole n hv hw fits some_bytes short small =
      let modulus = tag_integer ∷ (der_length n ++ behind) in
      let inner = der tag_integer version ++ modulus in
      let l0 = length-append (der_length whole) inner in
      let l1 = length-append (der tag_integer version) modulus in
      let l2 = length-append (der_length n) behind in
      rw
        (
          skip_tagged-sequence whole inner hw (omega arith) small,
          skip_tagged-integer version modulus hv (omega arith),
          asn1_read_parameter-cut gcry n behind fits some_bytes short (omega arith),
        )
        refl
