-- ===== src/AttrBuffer/RoundTrip.antt =====
-- Writers and readers of attribute buffers, one value at a time.
use osns.Prelude.{ℕ, ◌+◌, ◌^◌, ◌<◌, ◌≡◌, refl, sym, arith, ap, ◌∙◌}
use osns.Prelude.{true, Option, none, some, List, [], ◌∷◌, ◌++◌, ◌&&◌}
use osns.Prelude.{
  length, take, drop, length-append, take-append-drop, length-take, length-drop, append_assoc,
  drop-append, append-nil, leb, ltb,
}
use osns.Memory.{copy_at-append, read_bytes, read_bytes-append, bytes_at}
use osns.Wire.{four, eight, IsU32, IsU64}
use osns.Wire.RoundTrip.{get-four, get-eight, length-four, length-eight}
use osns.SshString.{SshString, u32}
use osns.SshString.RoundTrip.{Holds, encode, length-encode}
use osns.AttrBuffer.{
  set_attr_buffer_read, AttrBuffer, ab_write, ab_nowrite, pass, put, copy_buffer_data,
}
use osns.AttrBuffer.{
  write_uint32, write_string, write_uchars, read_uint32, read_uint64, read_string, take_string,
}

-- The buffer `ab` with `front` behind the position and `back` before it.
abbrev pub placed : AttrBuffer → List ℕ → List ℕ → AttrBuffer
placed ab front back = record ab {
  buffer = some (front ++ back);
  pos = length front;
  left = length back;
}

placed_moved :
    (ab : AttrBuffer) (front xs rest : List ℕ)
    → length front + length (xs ++ rest) < 2 ^ 32
    → pass (length xs) (placed ab front (xs ++ rest)) ≡ placed ab (front ++ xs) rest
unfolding pass
placed_moved ab front xs rest small =
    ground (arith, append_assoc front xs rest, length-append front xs, length-append xs rest)

-- A buffer that writes puts the bytes at its position, over what was there, and moves behind them.
pub put-placed :
    (ab : AttrBuffer) (front xs old rest : List ℕ)
    → ab.ops ≡ ab_write
    → length old ≡ length xs
    → length front + length (xs ++ rest) < 2 ^ 32
    → put (placed ab front (old ++ rest)) xs ≡ some (placed ab (front ++ xs) rest)
unfolding put copy_buffer_data
put-placed ab front xs old rest mode same small =
    let before = length-append old rest in
    let after = length-append xs rest in
    rw (mode, copy_at-append front xs old rest same)
      (ap some (ground (arith, placed_moved ab front xs rest)))

pub read_uint32-placed :
    (ab : AttrBuffer) (front rest : List ℕ) (v : ℕ)
    → IsU32 v
    → length front + length (four v ++ rest) < 2 ^ 32
    → read_uint32 (placed ab front (four v ++ rest)) ≡ some (v, placed ab (front ++ four v) rest)
unfolding read_uint32
read_uint32-placed ab front rest v fits small =
    rw (drop-append front (four v ++ rest), get-four v rest fits)
      (ap (λ t. some (v, t)) (rw (length-four v) at (placed_moved ab front (four v) rest small)))

pub read_uint64-placed :
    (ab : AttrBuffer) (front rest : List ℕ) (v : ℕ)
    → IsU64 v
    → length front + length (eight v ++ rest) < 2 ^ 32
    → read_uint64 (placed ab front (eight v ++ rest)) ≡ some (v, placed ab (front ++ eight v) rest)
unfolding read_uint64
read_uint64-placed ab front rest v fits small =
    rw (drop-append front (eight v ++ rest), get-eight v rest fits)
      (ap (λ t. some (v, t)) (rw (length-eight v) at (placed_moved ab front (eight v) rest small)))

-- A buffer that only counts moves on by the number of bytes.
pub put-counting :
    (ab : AttrBuffer) (xs : List ℕ)
    → ab.ops ≡ ab_nowrite
    → put ab xs ≡ some (record ab { pos = u32 (ab.pos + length xs) })
unfolding put
put-counting ab xs mode = rw mode

write_uchars-placed :
    (ab : AttrBuffer) (ptr : Option (List ℕ)) (front xs old rest : List ℕ)
    → ab.ops ≡ ab_write
    → bytes_at ptr (length xs) ≡ some xs
    → length old ≡ length xs
    → length front + length (xs ++ rest) < 2 ^ 32
    → write_uchars (placed ab front (old ++ rest)) ptr (length xs)
      ≡ some (placed ab (front ++ xs) rest)
unfolding write_uchars put
write_uchars-placed ab ptr front xs old rest mode bytes same small =
    let written = rw mode at (put-placed ab front xs old rest mode same small) in
    rw (mode, bytes) written

-- In a buffer for writing, below 2 ^ 32 bytes, a string is written at the position as its encoding,
-- over as many bytes as that has, and the position moves behind it.
write_string-placed :
    (ab : AttrBuffer) (s : SshString) (front xs old rest : List ℕ)
    → ab.ops ≡ ab_write
    → Holds s xs
    → length old ≡ length (encode xs)
    → length front + length (encode xs ++ rest) < 2 ^ 32
    → write_string (placed ab front (old ++ rest)) s ≡ some (placed ab (front ++ encode xs) rest)
unfolding write_string write_uint32 encode
write_string-placed ab s front xs old rest mode holds same small =
    let wide = length-encode xs in
    let here = length-take 4 old (omega arith) in
    let behind = length-drop 4 old in
    let body = length-append xs rest in
    let all = length-append (encode xs) rest in
    let moved = length-append front (four (length xs)) in
    let four_bytes = length-four (length xs) in
    let split : take 4 old ++ (drop 4 old ++ rest) ≡ old ++ rest =
      sym (append_assoc (take 4 old) (drop 4 old) rest)
      ∙ ap (λ (t : List ℕ). t ++ rest) (take-append-drop 4 old) in
    let head : put (placed ab front (take 4 old ++ (drop 4 old ++ rest))) (four (length xs))
        ≡ some (placed ab (front ++ four (length xs)) (drop 4 old ++ rest)) =
      put-placed ab front (four (length xs)) (take 4 old) (drop 4 old ++ rest) mode (omega arith) (
        omega (
          arith,
          length-append (four (length xs)) (drop 4 old ++ rest),
          length-append (drop 4 old) rest,
        )) in
    let bytes : bytes_at s.ptr (length xs) ≡ some xs = rw (holds.len_eq) at (holds.bytes_eq) in
    let tail =
      write_uchars-placed ab (s.ptr) (front ++ four (length xs)) xs (drop 4 old) rest mode bytes
        (omega arith) (omega arith) in
    rw (← split, holds.len_eq, head, tail)
      (ap (λ t. some (placed ab t rest)) (append_assoc front (four (length xs)) xs))

take_string-placed :
    {S : Type 0} (cb : SshString → S → S) (ab : AttrBuffer) (s : SshString) (state : S)
    (front xs rest : List ℕ)
    → 0 < length xs
    → length front + length (xs ++ rest) < 2 ^ 32
    → length xs + 4 < 2 ^ 32
    → let t : SshString = record s { len = length xs; ptr = some (xs ++ rest) } in
      take_string cb (placed ab front (xs ++ rest)) s (length xs) state
      ≡ some (length xs + 4, t, cb t state, placed ab (front ++ xs) rest)
unfolding take_string
take_string-placed cb ab s state front xs rest some_bytes small fits =
    let body = length-append xs rest in
    let ok : (ltb 0 (length xs) && leb (length xs) (length (xs ++ rest))) ≡ true = ground arith in
    let wrap : u32 (length xs + 4) ≡ length xs + 4 = omega arith in
    let t : SshString = record s { len = length xs; ptr = some (xs ++ rest) } in
    rw (ok, drop-append front (xs ++ rest), wrap)
      (ap (λ b. some (length xs + 4, t, cb t state, b)) (placed_moved ab front xs rest small))

read_string-bytes :
    {S : Type 0} (cb : SshString → S → S) (ab : AttrBuffer) (s : SshString) (state : S)
    (front xs rest : List ℕ)
    → 0 < length xs
    → length front + length (encode xs ++ rest) < 2 ^ 32
    → let t : SshString = record s { len = length xs; ptr = some (xs ++ rest) } in
      read_string cb (placed ab front (encode xs ++ rest)) s state
      ≡ some (length xs + 4, t, cb t state, placed ab (front ++ encode xs) rest)
unfolding read_string encode
read_string-bytes cb ab s state front xs rest some_bytes small =
    let wide = length-encode xs in
    let body = length-append xs rest in
    let all = length-append (encode xs) rest in
    let t : SshString = record s { len = length xs; ptr = some (xs ++ rest) } in
    let moved = length-append front (four (length xs)) in
    let four_bytes = length-four (length xs) in
    let assoc = append_assoc (four (length xs)) xs rest in
    rw
      (
        assoc,
        read_uint32-placed ab front (xs ++ rest) (length xs) (omega arith)
            (omega (arith, length-append (four (length xs)) (xs ++ rest))),
        take_string-placed cb ab s state (front ++ four (length xs)) xs rest some_bytes
            (omega arith) (omega arith),
      )
      (ap (λ f. some (length xs + 4, t, cb t state, placed ab f rest))
        (append_assoc front (four (length xs)) xs))

-- What a string field is after the bytes `xs` were read, with `rest` behind them. The pointer stays where
-- there are none.
unfoldable pub field_of : SshString → List ℕ → List ℕ → SshString
field_of s [] rest = record s { len = 0 }
field_of s (x ∷ xs) rest = record s { len = length (x ∷ xs); ptr = some (x ∷ xs ++ rest) }

-- What the callback makes of its state. It is called where there are bytes.
unfoldable pub after_call : {S : Type 0} → (SshString → S → S) → SshString → List ℕ → S → S
after_call cb s [] state = state
after_call cb s (x ∷ xs) state = cb s state

read_string-empty :
    {S : Type 0} (cb : SshString → S → S) (ab : AttrBuffer) (s : SshString) (state : S)
    (front rest : List ℕ)
    → length front + length (encode [] ++ rest) < 2 ^ 32
    → read_string cb (placed ab front (encode [] ++ rest)) s state
      ≡ some (4, record s { len = 0 }, state, placed ab (front ++ encode []) rest)
unfolding read_string take_string encode
read_string-empty cb ab s state front rest small =
    let none_left = append-nil (four 0) in
    let small' = rw none_left at small in
    rw (none_left, read_uint32-placed ab front rest 0 (omega arith) small') refl

read_string-field :
    {S : Type 0} (cb : SshString → S → S) (ab : AttrBuffer) (s : SshString) (state : S)
    (front xs rest : List ℕ)
    → length front + length (encode xs ++ rest) < 2 ^ 32
    → let t = field_of s xs rest in
      read_string cb (placed ab front (encode xs ++ rest)) s state
      ≡ some (length xs + 4, t, after_call cb t xs state, placed ab (front ++ encode xs) rest)
unfolding field_of after_call
read_string-field cb ab s state front [] rest small =
    read_string-empty cb ab s state front rest small
read_string-field cb ab s state front (x ∷ xs) rest small =
    read_string-bytes cb ab s state front (x ∷ xs) rest (omega arith) small

nothing_at : (ptr : Option (List ℕ)) → bytes_at ptr 0 ≡ some []
unfolding bytes_at read_bytes
nothing_at none = refl
nothing_at (some mem) = refl

field_of-Holds : (s : SshString) (xs rest : List ℕ) → Holds (field_of s xs rest) xs
unfolding field_of bytes_at
field_of-Holds s [] rest = record { len_eq = refl; bytes_eq = nothing_at (s.ptr) }
field_of-Holds s (x ∷ xs) rest = record {
  len_eq = refl;
  bytes_eq = read_bytes-append (x ∷ xs) rest;
}

-- A buffer for reading that has passed some bytes.
read-placed :
    (front back : List ℕ)
    → length front + length back < 2 ^ 32
    → let mem = front ++ back in
      let reader = set_attr_buffer_read mem (length mem) in
      pass (length front) reader ≡ placed reader front back
unfolding pass set_attr_buffer_read
read-placed front back small = ground (arith, length-append front back)

-- A string that write_string puts into a buffer for writing, below 2 ^ 32 bytes and over as many bytes as
-- its encoding has, is read back by read_string from the same place of the memory that the writer leaves.
-- Both move from there to behind the encoding. The result of read_string is the length of the string and
-- four, and the field that it fills has this length and these bytes. The callback is called with this field
-- if the string is not empty; for an empty string nothing is called, and the pointer of the field stays.
pub write-read_string :
    {S : Type 0} (cb : SshString → S → S) (ab : AttrBuffer) (s field : SshString) (state : S)
    (front xs old rest : List ℕ)
    → ab.ops ≡ ab_write
    → Holds s xs
    → length old ≡ length (encode xs)
    → length front + length (encode xs ++ rest) < 2 ^ 32
    → (written : AttrBuffer) × (mem : List ℕ) × (write_string (placed ab front (old ++ rest)) s
        ≡ some written)
      × (written.buffer ≡ some mem)
      × (written.pos ≡ length front + (length xs + 4))
      × (written.left ≡ length rest)
      × Holds (field_of field xs rest) xs
      × (let t = field_of field xs rest in
          let reader = set_attr_buffer_read mem (length mem) in
          read_string cb (pass (length front) reader) field state
          ≡ some
              (length xs + 4, t, after_call cb t xs state, placed reader (front ++ encode xs) rest))
write-read_string cb ab s field state front xs old rest mode holds same small =
    let mem = front ++ (encode xs ++ rest) in
    let reader = set_attr_buffer_read mem (length mem) in
    (
      placed ab (front ++ encode xs) rest,
      mem,
      write_string-placed ab s front xs old rest mode holds same small,
      ap some (append_assoc front (encode xs) rest),
      omega (arith, length-append front (encode xs), length-encode xs),
      refl,
      field_of-Holds field xs rest,
      rw (read-placed front (encode xs ++ rest) small)
          (read_string-field cb reader field state front xs rest small),
    )
