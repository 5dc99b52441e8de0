-- ===== src/SshString/Tests.antt =====
-- The theorems on SSH strings at concrete buffers.
use osns.Prelude.{ℕ, ◌+◌, ◌^◌, ◌≤◌, ◌≡◌, refl, arith, ◌⊎◌, some, List, [], ◌∷◌, ◌++◌, length}
use osns.Wire.{four}
use osns.SshString.{SshString, ssh_string_init, read_ssh_string}
use osns.SshString.{done, buffer_count_strings}
use osns.SshString.RoundTrip.{Holds, encode, read-encode}
use osns.SshString.RoundTrip.{read_bounds}
use osns.SshString.Count.{encodings, limited, buffer_count_strings-encodings}

abbrev ssh : List ℕ
ssh = b's' ∷ b's' ∷ b'h' ∷ []

read-encode_example :
    (t : SshString) × (read_ssh_string (encode ssh ++ (8 ∷ 9 ∷ [])) 9 ssh_string_init ≡ some (7, t))
    × Holds t ssh
    × (t.ptr ≡ some (ssh ++ (8 ∷ 9 ∷ [])))
read-encode_example =
    read-encode ssh_string_init ssh (8 ∷ 9 ∷ []) 9 refl (omega arith) (omega arith)

read_bounds_example :
    (r : ℕ) × (t : SshString) × (read_ssh_string (0 ∷ 0 ∷ 0 ∷ 2 ∷ 5 ∷ 6 ∷ []) 6 ssh_string_init
      ≡ some (r, t))
    × (r ≤ 6)
    × ((r ≡ 0) ⊎ (r ≡ t.len + 4) ⊎ (2 ^ 32 ≤ t.len + 4))
read_bounds_example = read_bounds (0 ∷ 0 ∷ 0 ∷ 2 ∷ 5 ∷ 6 ∷ []) 6 ssh_string_init (omega arith)

abbrev three : List (List ℕ)
three = [] ∷ ssh ∷ []

buffer_count_strings-encodings_example :
    buffer_count_strings (encodings (ssh ∷ three)) (length (encodings (ssh ∷ three))) 2
    ≡ done (limited 2 3)
unfolding encodings encode four
buffer_count_strings-encodings_example = buffer_count_strings-encodings ssh three 2 (omega arith)
