-- ===== src/PrivateKey/Bytes.antt =====
-- The number of bytes of a number: get_nbytes_ssh_mpint of src/lib/datatypes/ssh-mpint.c.
use osns.Prelude.{◌+◌, ◌*◌, ◌<◌, ◌≤◌, ◌≡◌, arith, false, some}
use osns.PrivateKey.{Gcrypt, get_nbytes_ssh_mpint}

-- When the bit of a number that its number of bits names is not set, as none behind the highest is, its bytes are just as many as hold its bits: a
-- number that fills its last byte gets no byte more.
pub get_nbytes_ssh_mpint_exact :
    {M : Type 0} (gcry : Gcrypt M) (m : M)
    → gcry.test_bit m (gcry.get_nbits m) ≡ false
    → (gcry.get_nbits m ≤ get_nbytes_ssh_mpint gcry (some m) * 8)
      × (get_nbytes_ssh_mpint gcry (some m) * 8 < gcry.get_nbits m + 8)
unfolding get_nbytes_ssh_mpint
get_nbytes_ssh_mpint_exact gcry m none_above = ground arith
