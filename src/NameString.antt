-- ===== src/NameString.antt =====
-- Strings with one byte for their length: src/lib/datatypes/name-string.c and name-string.h. A pointer is
-- NULL or the bytes from there; `none` is an access outside of a buffer.
mod Tests
pub mod Laws
use osns.Prelude.{
  ℕ, ◌+◌, ◌%◌, ◌^◌, Bool, true, false, Option, none, some, List, [], ◌∷◌, ◌>>=◌, length, leb, ◌==◌,
  if◌then◌else◌,
}
use osns.Prelude.{bit_and}
use osns.Memory.{bytes_at, copy_to, same_bytes}
use osns.CString.{text}

-- `struct name_string_s`
pub record NameString : Type 0 where
  pub len : ℕ
  pub ptr : Option (List ℕ)

unfoldable pub init_name_string : NameString
init_name_string = record { len = 0; ptr = none }

-- The arguments `type` and `ptr`; the functions other than `set_name_string` do not test for NULL.
pub data NameStringArg : Type 0 where
  null_arg : NameStringArg
  chars_arg : List ℕ → NameStringArg
  name_arg : NameString → NameStringArg
  other_arg : NameStringArg

-- `strlen` as an `unsigned int`.
unfoldable pub strlen : List ℕ → Option ℕ
strlen chars = do t ← text chars; some (length t % 2 ^ 32)

unfoldable pub set_name_string : NameString → NameStringArg → Option NameString
set_name_string s null_arg = some init_name_string
set_name_string s (chars_arg chars) = do
  len ← strlen chars
  some (record { len = len; ptr = some chars })
set_name_string s (name_arg tmp) = some (record { len = tmp.len; ptr = tmp.ptr })
set_name_string s other_arg = some s

-- `true` is the result 0, and `false` is -1.
unfoldable pub compare_data : ℕ → Option (List ℕ) → NameString → Option Bool
compare_data len chars t =
    if len == t.len
    then (do a ← bytes_at chars t.len; b ← bytes_at t.ptr t.len; some (same_bytes a b))
    else some false

unfoldable pub compare_name_string : NameString → NameStringArg → Option Bool
compare_name_string t null_arg = none
compare_name_string t (chars_arg chars) = do len ← strlen chars; compare_data len (some chars) t
compare_name_string t (name_arg s) = compare_data s.len s.ptr t
compare_name_string t other_arg = some false

-- The result, and what is left in `*s`.
unfoldable pub accept_name : List ℕ → ℕ → ℕ → ℕ × NameString
accept_name behind size len =
    if leb (1 + len) size
    then (1 + len, record { len = len; ptr = some behind })
    else (0, record { len = len; ptr = none })

unfoldable pub read_name_string : List ℕ → ℕ → Option (ℕ × NameString)
read_name_string [] size = if leb 1 size then none else some (0, init_name_string)
read_name_string (b ∷ behind) size =
    some (if leb 1 size then accept_name behind size b else (0, init_name_string))

-- One byte for the length, and the bytes behind it. `size` is not looked at.
unfoldable pub write_data : List ℕ → ℕ → Option (List ℕ) → Option (List ℕ)
write_data buffer len chars = do bytes ← bytes_at chars len; copy_to buffer (len % 256 ∷ bytes)

-- The result, and the buffer after it. Without a buffer only the size is computed.
unfoldable pub write_counted : Option (List ℕ) → ℕ → Option (List ℕ) → Option (ℕ × Option (List ℕ))
write_counted none len chars = some ((1 + len) % 2 ^ 32, none)
write_counted (some buffer) len chars = do
  b ← write_data buffer len chars
  some ((1 + len) % 2 ^ 32, some b)

unfoldable pub write_name_string :
    Option (List ℕ) → ℕ → NameStringArg → Option (ℕ × Option (List ℕ))
write_name_string buffer size null_arg = none
write_name_string buffer size (chars_arg chars) = do
  len ← strlen chars
  write_counted buffer len (some chars)
write_name_string buffer size (name_arg s) = write_counted buffer s.len s.ptr
write_name_string buffer size other_arg = some (0, buffer)

abbrev pub allow_truncate : ℕ
allow_truncate = 1

-- `memcpy(s->ptr, data, n)`; nothing is written through NULL.
unfoldable pub fill : NameString → Option (List ℕ) → ℕ → Option NameString
fill s chars n = do
  bytes ← bytes_at chars n
  mem ← elim (s.ptr) [ some mem ↦ copy_to mem bytes | none ↦ none ]
  some (record s { ptr = some mem })

-- The number of bytes that were copied, and the string they were copied to.
unfoldable pub copy_name_string_hlpr :
    NameString → Option (List ℕ) → ℕ → ℕ → Option (ℕ × NameString)
copy_name_string_hlpr s chars size flags =
    if leb size s.len
    then (do t ← fill s chars size; some (size, t))
    else if bit_and flags allow_truncate == 0
    then some (0, s)
    else (do t ← fill s chars s.len; some (s.len, t))

unfoldable pub copy_name_string : NameString → NameStringArg → ℕ → Option (ℕ × NameString)
copy_name_string s null_arg flags = none
copy_name_string s (chars_arg chars) flags = do
  len ← strlen chars
  copy_name_string_hlpr s (some chars) len flags
copy_name_string s (name_arg o) flags = copy_name_string_hlpr s o.ptr o.len flags
copy_name_string s other_arg flags = some (0, s)
