-- ===== src/AttrBuffer/Tests.antt =====
-- The theorems on attribute buffers at concrete buffers.
use osns.Prelude.{ℕ, ◌+◌, ◌≡◌, refl, arith, some, List, [], ◌∷◌, ◌++◌, length}
use osns.SshString.{SshString, ssh_string_init}
use osns.SshString.RoundTrip.{Holds, encode}
use osns.AttrBuffer.{
  AttrBuffer, set_attr_buffer_write, set_attr_buffer_read, pass, write_string, read_string,
}
use osns.AttrBuffer.RoundTrip.{placed, field_of, after_call, write-read_string}

abbrev ab : List ℕ
ab = b'a' ∷ b'b' ∷ []

-- The bytes of the string, and one behind them that is not read.
abbrev source : SshString
source = record ssh_string_init { len = 2; ptr = some (ab ++ (5 ∷ [])) }

source-Holds : Holds source ab
unfolding osns.Memory.bytes_at osns.Memory.read_bytes
source-Holds = record { len_eq = refl; bytes_eq = refl }

abbrev blank : List ℕ
blank = 0 ∷ 0 ∷ 0 ∷ 0 ∷ 0 ∷ 0 ∷ []

abbrev writer : AttrBuffer
writer = set_attr_buffer_write blank 6

-- The callback adds the length to a count.
abbrev add_length : SshString → ℕ → ℕ
add_length s n = n + s.len

write-read_string_example :
    (written : AttrBuffer) × (mem : List ℕ) × (write_string
        (placed writer (7 ∷ []) (blank ++ (9 ∷ [])))
        source
      ≡ some written)
    × (written.buffer ≡ some mem)
    × (written.pos ≡ 1 + (2 + 4))
    × (written.left ≡ 1)
    × Holds (field_of ssh_string_init ab (9 ∷ [])) ab
    × (let t = field_of ssh_string_init ab (9 ∷ []) in
        let reader = set_attr_buffer_read mem (length mem) in
        read_string add_length (pass 1 reader) ssh_string_init 3
        ≡ some (6, t, after_call add_length t ab 3, placed reader ((7 ∷ []) ++ encode ab) (9 ∷ [])))
unfolding set_attr_buffer_write encode osns.Wire.four
write-read_string_example =
    write-read_string add_length writer source ssh_string_init 3 (7 ∷ []) ab blank (9 ∷ []) refl
      source-Holds refl (omega arith)

-- The callback has added the length.
called : after_call add_length (field_of ssh_string_init ab (9 ∷ [])) ab 3 ≡ 5
unfolding after_call field_of
called = refl
