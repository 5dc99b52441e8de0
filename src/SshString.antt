-- ===== src/SshString.antt =====
-- Length-prefixed strings of the SSH wire format: src/lib/ssh/ssh-string.c.
-- `unsigned int` arithmetic wraps at 2 ^ 32. The flexible array `buffer[]` and the functions that
-- allocate are left out, so `ptr` points into a buffer of the caller.
mod Tests
pub mod RoundTrip
pub mod Count
use osns.Prelude.{ℕ, zero, suc, ◌+◌, ◌%◌, ◌^◌, Bool, true, false, Option, none, some, List, [], ◌∷◌}
use osns.Prelude.{◌&&◌, leb, ltb, ◌==◌, if◌then◌else◌, length, drop, ◌>>=◌, bit_and}
use osns.Memory.{read_bytes, bytes_at, copy_at, same_bytes}
use osns.Wire.{get_uint32, store_uint32}

pub record SshString : Type 0 where
  pub flags : ℕ
  pub len : ℕ
  pub size : ℕ
  pub ptr : Option (List ℕ)

-- `SSH_STRING_INIT`, and what `init_ssh_string` makes of any string
abbrev pub ssh_string_init : SshString
ssh_string_init = record { flags = 0; len = 0; size = 0; ptr = none }

-- The `type` and `ptr` arguments of the functions that take a string in several forms. A C string
-- is its bytes without the closing zero.
pub data StringArg : Type 0 where
  ssh_string : SshString → StringArg
  c_string : List ℕ → StringArg
  length_only : Option ℕ → StringArg
  other : StringArg

-- `u32 a` is `a` as the machine keeps it in an `unsigned int`.
abbrev pub u32 : ℕ → ℕ
u32 a = a % 2 ^ 32

-- `*len` is unchanged where nothing is read.
unfoldable pub read_ssh_string_header : List ℕ → ℕ → ℕ → Option (ℕ × ℕ)
read_ssh_string_header buffer size len =
    if leb 4 size then (get_uint32 buffer >>= λ n. some (4, n)) else some (0, len)

-- The result and the buffer after it.
unfoldable pub write_ssh_string_header : List ℕ → ℕ → ℕ → Option (ℕ × List ℕ)
write_ssh_string_header buffer size len =
    if leb (u32 (4 + len)) size
    then (store_uint32 buffer len >>= λ b. some (4, b))
    else some (0, buffer)

-- The test of `read_ssh_string` once the length `n` is known, and what it leaves in `*s`.
pub accept_string : List ℕ → ℕ → SshString → ℕ → ℕ × SshString
accept_string buffer size s n =
    if leb (u32 (4 + n)) size
    then (u32 (4 + n), record s { len = n; ptr = some (drop 4 buffer) })
    else (0, record s { len = n; ptr = none })

-- The result is the number of bytes that were read, and 0 if there is no string.
unfoldable pub read_ssh_string : List ℕ → ℕ → SshString → Option (ℕ × SshString)
unfolding accept_string
read_ssh_string buffer size s =
    if s.size == 0
    then (if leb 4 size
        then (get_uint32 buffer >>= λ n. some (accept_string buffer size s n))
        else some (0, record s { len = 0; ptr = none }))
    else some (0, s)

-- `buffer` is NULL when only the size is asked for. The result and the buffer after it.
pub copy_ssh_string_hlpr : Option (List ℕ) → Option (List ℕ) → ℕ → Option (ℕ × Option (List ℕ))
copy_ssh_string_hlpr none bytes len = some (u32 (4 + len), none)
copy_ssh_string_hlpr (some buffer) none len =
    store_uint32 buffer len >>= λ b. some (u32 (4 + len), some b)
copy_ssh_string_hlpr (some buffer) (some mem) len = do
  b ← store_uint32 buffer len
  bytes ← read_bytes mem len
  b' ← copy_at b 4 bytes
  some (u32 (4 + len), some b')

write_length : Option (List ℕ) → ℕ → Option (ℕ × Option (List ℕ))
write_length none len = some (4, none)
write_length (some buffer) len = store_uint32 buffer len >>= λ b. some (4, some b)

unfoldable pub write_ssh_string : Option (List ℕ) → StringArg → Option (ℕ × Option (List ℕ))
unfolding copy_ssh_string_hlpr write_length
write_ssh_string buffer (ssh_string s) = copy_ssh_string_hlpr buffer s.ptr s.len
write_ssh_string buffer (c_string text) = copy_ssh_string_hlpr buffer (some text) (length text)
write_ssh_string buffer (length_only (some len)) = write_length buffer len
write_ssh_string buffer (length_only none) = write_length buffer 0
write_ssh_string buffer other = some (0, buffer)

-- Whether the bytes at two pointers agree; `true` stands for the result 0, and `false` for -1.
compare_bytes : ℕ → Option (List ℕ) → ℕ → Option (List ℕ) → Option Bool
compare_bytes m p n q =
    if m == n then (do a ← bytes_at p n; b ← bytes_at q n; some (same_bytes a b)) else some false

unfoldable pub compare_ssh_string : SshString → StringArg → Option Bool
unfolding compare_bytes
compare_ssh_string t (ssh_string s) = compare_bytes s.len s.ptr t.len t.ptr
compare_ssh_string t (c_string text) = compare_bytes (length text) (some text) t.len t.ptr
compare_ssh_string t (length_only _) = some false
compare_ssh_string t other = some false

abbrev pub flag_header : ℕ
flag_header = 1

abbrev pub flag_data : ℕ
flag_data = 2

unfoldable pub get_ssh_string_length : SshString → ℕ → ℕ
get_ssh_string_length s flags =
    let head : ℕ = if bit_and flags flag_header == 0 then 0 else 4 in
    if bit_and flags flag_data == 0 then head else u32 (head + s.len)

-- `data` that is not there, a loop that has not ended, or a result.
pub data Run (A : Type 0) : Type 0 where
  fault : Run A
  out_of_fuel : Run A
  done : A → Run A

-- What follows the read of `len` at `pos`: leave the loop, or go on behind the string.
pub count_step : ℕ → ℕ → ℕ → ℕ → ℕ → Run ℕ → Run ℕ
count_step size max next count len rest =
    if leb next size
    then (if ltb 0 max && (u32 (count + 1) == max)
        then done (u32 (count + 1))
        else if ltb next size
        then rest
        else done (u32 (count + 1)))
    else done count

unfoldable pub count_loop : ℕ → List ℕ → ℕ → ℕ → ℕ → ℕ → Run ℕ
unfolding count_step
count_loop zero buffer size max pos count = out_of_fuel
count_loop (suc fuel) buffer size max pos count = elim (get_uint32 (drop pos buffer)) [
  | none ↦ fault
  | some len ↦
      let next = u32 (pos + 4 + len) in
      let rest = count_loop fuel buffer size max next (u32 (count + 1)) in
      count_step size max next count len rest
]

-- Each string takes four bytes at least, so `size + 1` rounds are enough where the sum does not wrap.
pub buffer_count_strings : List ℕ → ℕ → ℕ → Run ℕ
buffer_count_strings buffer size max = count_loop (size + 1) buffer size max 0 0
