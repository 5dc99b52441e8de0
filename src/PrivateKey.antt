-- ===== src/PrivateKey.antt =====
-- Private keys in DER: the readers for RSA and DSS in src/ssh/pk/pk-read-private.c, and the functions of
-- src/lib/datatypes/ssh-mpint.c that they call. The numbers are those of libgcrypt, which is a parameter.
-- A pointer behind the end of a buffer is the empty list, from which nothing can be read.
mod Tests
pub mod Places
pub mod RoundTrip
pub mod Rsa
pub mod Bytes
use osns.Prelude.{
  ℕ, ◌+◌, ◌-◌, ◌/◌, ◌%◌, ◌^◌, Bool, true, false, Option, none, some, List, ◌&&◌, ◌||◌, ◌==◌,
  if◌then◌else◌, ltb, drop,
}
use osns.Prelude.Int.{ℤ, pos, negsuc}
use osns.CString.{Sign, less, same, more}
use osns.Memory.{bytes_at}
use osns.SshString.{u32}
use osns.Asn1.{Tlv, asn1_read_tlv, tag_integer, tag_sequence}

-- `gcry_mpi_scan` in the format STD, which is given the bytes that it reads, and the other functions of
-- libgcrypt. A length that libgcrypt refuses before it reads, for being above its limit, is read here too. `gcry_mpi_invm` gives the value of its first argument afterwards.
pub record Gcrypt (M : Type 0) : Type 0 where
  pub scan : List ℕ → Option M
  pub get_nbits : M → ℕ
  pub test_bit : M → ℕ → Bool
  pub cmp : M → M → Sign
  pub invm : M → M → M → M

-- A read behind a buffer, the result -1, or 0 with what was read.
pub data Outcome (A : Type 0) : Type 0 where
  fault : Outcome A
  failed : Outcome A
  got : A → Outcome A

infixl 5 ◌>>=◌
abbrev pub ◌>>=◌ : {A B : Type 0} → Outcome A → (A → Outcome B) → Outcome B
fault >>= f = fault
failed >>= f = failed
got a >>= f = f a

-- `pos` and `left` of the readers.
pub record Place : Type 0 where
  pub mem : List ℕ
  pub left : ℕ

unfoldable pub of_result : Option (ℤ × Tlv) → Outcome Tlv
of_result none = fault
of_result (some (pos n, tlv)) = if n == 0 then got tlv else failed
of_result (some (negsuc n, tlv)) = failed

-- `pos += tlv.bytes; left -= tlv.bytes`
unfoldable pub pass : Tlv → Place → Place
pass tlv at = record { mem = drop tlv.bytes at.mem; left = u32 (at.left + 2 ^ 32 - tlv.bytes) }

unfoldable pub read_tagged : ℕ → Place → Outcome Tlv
unfolding of_result
read_tagged tag at = do
  tlv ← of_result (asn1_read_tlv at.mem at.left)
  if tlv.tag == tag then got tlv else failed

-- The test of the sequence or of the version, and `asn1_read_parameter` without a number.
unfoldable pub skip_tagged : ℕ → Place → Outcome Place
unfolding read_tagged pass
skip_tagged tag at = do tlv ← read_tagged tag at; got (pass tlv at)

pub record RsaKey (M : Type 0) : Type 0 where
  pub n : Option M
  pub e : Option M
  pub d : Option M
  pub p : Option M
  pub q : Option M
  pub u : Option M

pub record DssKey (M : Type 0) : Type 0 where
  pub p : Option M
  pub q : Option M
  pub g : Option M
  pub y : Option M
  pub x : Option M

module _ {M : Type 0} (gcry : Gcrypt M) where
  unfoldable pub scanned : Option M → Outcome M
  scanned none = failed
  scanned (some m) = got m

  unfoldable pub scan_bytes : Option (List ℕ) → Outcome M
  unfolding scanned
  scan_bytes none = fault
  scan_bytes (some bytes) = scanned (gcry.scan bytes)

  -- `tlv->len` bytes from `tlv->pos` are read, whatever is there.
  unfoldable pub asn1_read_mpint_from_tlv : Tlv → Outcome M
  unfolding scan_bytes
  asn1_read_mpint_from_tlv tlv = scan_bytes (bytes_at tlv.at tlv.len)

  unfoldable pub asn1_read_parameter : Place → Outcome (M × Place)
  unfolding read_tagged asn1_read_mpint_from_tlv pass
  asn1_read_parameter at = do
    tlv ← read_tagged tag_integer at
    m ← asn1_read_mpint_from_tlv tlv
    got (m, pass tlv at)

  -- The bit behind the highest is tested.
  unfoldable pub get_nbytes_ssh_mpint : Option M → ℕ
  get_nbytes_ssh_mpint none = 0
  get_nbytes_ssh_mpint (some m) =
      let bits = gcry.get_nbits m in
      if bits % 8 == 0
      then (if gcry.test_bit m bits then bits / 8 + 1 else bits / 8)
      else bits / 8 + 1

  unfoldable pub compare_ssh_mpint : Option M → Option M → Sign
  compare_ssh_mpint (some a) (some b) = gcry.cmp a b
  compare_ssh_mpint none b = less
  compare_ssh_mpint (some a) none = less

  -- What `x` is afterwards; `none` for a call of libgcrypt with NULL.
  unfoldable pub invm_ssh_mpint : Option M → Option M → Option M → Outcome (Option M)
  invm_ssh_mpint (some x) (some a) (some m) = got (some (gcry.invm x a m))
  invm_ssh_mpint (some x) (some a) none = fault
  invm_ssh_mpint (some x) none m = fault
  invm_ssh_mpint none a m = fault

  -- All of p, q and u, or none of them.
  unfoldable pub clear_incomplete : RsaKey M → RsaKey M
  unfolding get_nbytes_ssh_mpint
  clear_incomplete key =
      if get_nbytes_ssh_mpint key.p == 0
        || (get_nbytes_ssh_mpint key.q == 0 || get_nbytes_ssh_mpint key.u == 0)
      then record key { p = none; q = none; u = none }
      else key

  unfoldable pub order_by : Sign → RsaKey M → Outcome (RsaKey M)
  unfolding invm_ssh_mpint
  order_by less key = got key
  order_by same key = got key
  order_by more key = do
    u ← invm_ssh_mpint key.u key.q key.p
    got (record key { p = key.q; q = key.p; u = u })

  -- p before q, as libgcrypt takes them.
  unfoldable pub order_primes : RsaKey M → Outcome (RsaKey M)
  unfolding order_by compare_ssh_mpint get_nbytes_ssh_mpint
  order_primes key =
      if ltb 0 (get_nbytes_ssh_mpint key.p) && ltb 0 (get_nbytes_ssh_mpint key.q)
      then order_by (compare_ssh_mpint key.p key.q) key
      else got key

  unfoldable pub read_skey_rsa_asn1 : List ℕ → ℕ → Outcome (RsaKey M)
  unfolding skip_tagged asn1_read_parameter clear_incomplete order_primes
  read_skey_rsa_asn1 buffer size = do
    version ← skip_tagged tag_sequence (record { mem = buffer; left = size })
    at_n ← skip_tagged tag_integer version
    (n, at_e) ← asn1_read_parameter at_n
    (e, at_d) ← asn1_read_parameter at_e
    (d, at_p) ← asn1_read_parameter at_d
    (p, at_q) ← asn1_read_parameter at_p
    (q, at_exponent1) ← asn1_read_parameter at_q
    at_exponent2 ← skip_tagged tag_integer at_exponent1
    at_u ← skip_tagged tag_integer at_exponent2
    (u, end) ← asn1_read_parameter at_u
    order_primes (
        clear_incomplete
          (record { n = some n; e = some e; d = some d; p = some p; q = some q; u = some u }))

  unfoldable pub read_param_skey_dss_asn1 : List ℕ → ℕ → Outcome (DssKey M)
  unfolding skip_tagged asn1_read_parameter
  read_param_skey_dss_asn1 buffer size = do
    version ← skip_tagged tag_sequence (record { mem = buffer; left = size })
    at_p ← skip_tagged tag_integer version
    (p, at_q) ← asn1_read_parameter at_p
    (q, at_g) ← asn1_read_parameter at_q
    (g, at_y) ← asn1_read_parameter at_g
    (y, at_x) ← asn1_read_parameter at_y
    (x, end) ← asn1_read_parameter at_x
    got (record { p = some p; q = some q; g = some g; y = some y; x = some x })
