-- ===== src/SshString/RoundTrip.antt =====
-- `write_ssh_string`, `read_ssh_string` and `compare_ssh_string` against the wire format.
use osns.Prelude.{
  ℕ, ◌+◌, ◌-◌, Bool-cases, drop-append, ◌^◌, ◌≤◌, ◌<◌, ◌≡◌, refl, arith, ap, ◌∙◌, ◌⊎◌, inl, inr,
  ◌↔◌,
}
use osns.Prelude.{true, none, some, List, ◌++◌}
use osns.Prelude.{
  length, take, drop, sym, take-append-drop, length-take, length-drop, length-append, append_assoc,
  leb, ◌==◌, le→leb,
}
use osns.Memory.{read_bytes, bytes_at, copy_at, read_bytes-append, copy_at-append}
use osns.Memory.{same_bytes→eq, same_bytes_refl, read_bytes-all}
use osns.Wire.{IsU32, four}
use osns.Wire.RoundTrip.{get-four, store-four, length-four, get_uint32-total}
use osns.SshString.{SshString, ssh_string, u32, accept_string, read_ssh_string}
use osns.SshString.{write_ssh_string, copy_ssh_string_hlpr, compare_ssh_string, compare_bytes}

-- `s` has the bytes `xs`.
pub record Holds (s : SshString) (xs : List ℕ) : Type 0 where
  pub len_eq : s.len ≡ length xs
  pub bytes_eq : bytes_at s.ptr s.len ≡ some xs

-- The wire format of a string: its length in four bytes, and its bytes.
unfoldable pub encode : List ℕ → List ℕ
encode xs = four (length xs) ++ xs

pub length-encode : (s : List ℕ) → length (encode s) ≡ length s + 4
unfolding encode
length-encode s = omega (arith, length-append (four (length s)) s, length-four (length s))

copy_at-four :
    (v : ℕ) (bytes old rest : List ℕ)
    → length old ≡ length bytes
    → copy_at (four v ++ (old ++ rest)) 4 bytes ≡ some (four v ++ (bytes ++ rest))
copy_at-four v bytes old rest h = rw (length-four v) at (copy_at-append (four v) bytes old rest h)

copy-encode :
    (mem xs head body rest : List ℕ) (n : ℕ)
    → read_bytes mem n ≡ some xs
    → length head ≡ 4
    → length body ≡ length xs
    → copy_ssh_string_hlpr (some (head ++ (body ++ rest))) (some mem) n
      ≡ some (u32 (4 + n), some (four n ++ (xs ++ rest)))
unfolding copy_ssh_string_hlpr
copy-encode mem xs head body rest n r h4 hb =
    rw (store-four n head (body ++ rest) h4, r, copy_at-four n xs body rest hb)

-- A string that is written over as many bytes as it needs becomes its encoding, and the bytes behind
-- it stay.
write-encode :
    (s : SshString) (xs mem head body rest : List ℕ)
    → s.ptr ≡ some mem
    → Holds s xs
    → length xs + 4 < 2 ^ 32
    → length head ≡ 4
    → length body ≡ length xs
    → write_ssh_string (some (head ++ (body ++ rest))) (ssh_string s)
      ≡ some (length xs + 4, some (encode xs ++ rest))
unfolding write_ssh_string encode bytes_at
write-encode s xs mem head body rest at holds fits h4 hb =
    let r : read_bytes mem (length xs) ≡ some xs = rw (at, holds.len_eq) at holds.bytes_eq in
    rw (at, holds.len_eq)
      (copy-encode mem xs head body rest (length xs) r h4 hb
        ∙ ap some (ground (arith, append_assoc (four (length xs)) xs rest)))

-- The string that points at `xs`: `SSH_STRING_SET`.
abbrev pub string_of : List ℕ → SshString
string_of xs = record { flags = 0; len = length xs; size = 0; ptr = some xs }

pub string_of-Holds : (xs : List ℕ) → Holds (string_of xs) xs
unfolding bytes_at
string_of-Holds xs = record { len_eq = refl; bytes_eq = read_bytes-all xs }

pub write-string_of :
    (xs old rest : List ℕ)
    → length xs + 4 < 2 ^ 32
    → length old ≡ length xs + 4
    → write_ssh_string (some (old ++ rest)) (ssh_string (string_of xs))
      ≡ some (length xs + 4, some (encode xs ++ rest))
write-string_of xs old rest fits room =
    let parts : take 4 old ++ (drop 4 old ++ rest) ≡ old ++ rest =
      sym (append_assoc (take 4 old) (drop 4 old) rest)
      ∙ ap (λ (t : List ℕ). t ++ rest) (take-append-drop 4 old) in
    rw parts at (
      write-encode (string_of xs) xs xs (take 4 old) (drop 4 old) rest refl (string_of-Holds xs)
        fits (length-take 4 old (omega arith)) (omega (arith, length-drop 4 old)))

pub write-null :
    (s : SshString) → write_ssh_string none (ssh_string s) ≡ some (u32 (4 + s.len), none)
unfolding write_ssh_string copy_ssh_string_hlpr
write-null s = refl

drop-four : (v : ℕ) (rest : List ℕ) → drop 4 (four v ++ rest) ≡ rest
drop-four v rest = rw (length-four v) at (drop-append (four v) rest)

-- A string that has been written is read back, whatever follows it: the result is its length with the
-- header, and the string points at its bytes.
pub read-encode :
    (s : SshString) (xs rest : List ℕ) (size : ℕ)
    → s.size ≡ 0
    → length xs + 4 ≤ size
    → size < 2 ^ 32
    → (t : SshString) × (read_ssh_string (encode xs ++ rest) size s ≡ some (length xs + 4, t))
      × Holds t xs
      × (t.ptr ≡ some (xs ++ rest))
unfolding read_ssh_string encode bytes_at
read-encode s xs rest size empty fits small = (
  record s { len = length xs; ptr = some (xs ++ rest) },
  rw
      (
        empty,
        le→leb 4 size (omega arith),
        append_assoc (four (length xs)) xs rest,
        get-four (length xs) (xs ++ rest) (omega arith),
      )
      (ground (arith, length-four (length xs), drop-four (length xs) (xs ++ rest))),
  record { len_eq = refl; bytes_eq = read_bytes-append xs rest },
  refl,
)

accept_bounds :
    (buffer : List ℕ) (size n : ℕ) (s : SshString)
    → ((accept_string buffer size s n).0 ≤ size)
      × (((accept_string buffer size s n).0 ≡ 0)
          ⊎ ((accept_string buffer size s n).0 ≡ (accept_string buffer size s n).1.len + 4)
          ⊎ (2 ^ 32 ≤ (accept_string buffer size s n).1.len + 4))
unfolding accept_string
accept_bounds buffer size n s = ground arith

-- On any buffer that has at least `size` bytes a read stays inside it. It takes no more than `size`
-- bytes, and either takes none, or exactly a string with its header, or the length on the wire is so
-- large that the sum with the header does not fit 32 bits.
pub read_bounds :
    (buffer : List ℕ) (size : ℕ) (s : SshString)
    → size ≤ length buffer
    → (r : ℕ) × (t : SshString) × (read_ssh_string buffer size s ≡ some (r, t))
      × (r ≤ size)
      × ((r ≡ 0) ⊎ (r ≡ t.len + 4) ⊎ (2 ^ 32 ≤ t.len + 4))
unfolding read_ssh_string
read_bounds buffer size s room = elim (Bool-cases (s.size == 0)) [
  | inr full ↦ (0, s, rw full, omega arith, inl refl)
  | inl empty ↦ elim (Bool-cases (leb 4 size)) [
    | inr short ↦ (0, record s { len = 0; ptr = none }, rw (empty, short), omega arith, inl refl)
    | inl enough ↦
        let (n, e) = get_uint32-total buffer (ground arith) in
        let (fits, cases) = accept_bounds buffer size n s in
        (
          (accept_string buffer size s n).0,
          (accept_string buffer size s n).1,
          rw (empty, enough, e),
          fits,
          cases,
        )
  ]
]

-- A length of 2 ^ 32 - 4 or more passes the test of `read_ssh_string`: fewer than four bytes are
-- taken, and the string claims all of `len` bytes behind its header.
read_oversized :
    (v : ℕ) (rest : List ℕ) (size : ℕ) (s : SshString)
    → IsU32 v
    → 2 ^ 32 ≤ v + 4
    → 4 ≤ size
    → s.size ≡ 0
    → (t : SshString) × (read_ssh_string (four v ++ rest) size s ≡ some (v + 4 - 2 ^ 32, t))
      × (t.len ≡ v)
      × (t.ptr ≡ some rest)
unfolding read_ssh_string
read_oversized v rest size s fits huge room empty = (
  record s { len = v; ptr = some rest },
  rw (empty, le→leb 4 size room, get-four v rest fits) (ground (arith, drop-four v rest)),
  refl,
  refl,
)

-- Two strings compare as equal exactly if they have the same bytes.
pub compare_iff :
    (s t : SshString) (xs ys : List ℕ)
    → Holds s xs
    → Holds t ys
    → ((compare_ssh_string t (ssh_string s) ≡ some true) ↔ (xs ≡ ys))
unfolding compare_ssh_string compare_bytes
compare_iff s t xs ys hs ht = (
  λ e. ground (arith, same_bytes→eq xs ys, hs.bytes_eq, ht.bytes_eq),
  λ e. ground (arith, same_bytes_refl xs, hs.bytes_eq, ht.bytes_eq),
)
