-- ===== src/MsgBuffer.antt =====
-- The message buffer that SSH messages are composed in and read from:
-- src/lib/datatypes/ssh-msg-buffer.c. A buffer without data only counts (`nowrite_…`), one with data
-- also writes (`dowrite_…`); a write that does not fit sets the error and goes on counting.
mod Tests
pub mod Write
pub mod TwoPass
pub mod Read
use osns.Prelude.{
  ℕ, zero, suc, ◌+◌, ◌-◌, ◌%◌, ◌^◌, Bool, true, false, Option, none, some, List, [], ◌∷◌, ◌++◌,
}
use osns.Prelude.{leb, ltb, ◌==◌, ◌&&◌, if◌then◌else◌, length, take, drop, ◌>>=◌}
use osns.Memory.{copy_at, read_bytes}
use osns.Wire.{four, eight, get_uint32, get_uint64}
use osns.SshString.{SshString, StringArg, ssh_string, length_only, u32, write_ssh_string}
use osns.SshString.{read_ssh_string, read_ssh_string_header, Run, done, buffer_count_strings}

-- `writing` says which of the two sets of functions `set_msg_buffer_write` and
-- `set_msg_buffer_nowrite` has installed.
pub record MsgBuffer : Type 0 where
  pub bytes : Option (List ℕ)
  pub len : ℕ
  pub pos : ℕ
  pub error : ℕ
  pub writing : Bool

abbrev pub enobufs : ℕ
enobufs = 105

abbrev pub eio : ℕ
eio = 5

-- `INIT_SSH_MSG_BUFFER`
abbrev pub init_msg_buffer : MsgBuffer
init_msg_buffer = record { bytes = none; len = 0; pos = 0; error = 0; writing = false }

pub set_msg_buffer : Option (List ℕ) → ℕ → MsgBuffer
set_msg_buffer (some mem) len = record {
  bytes = some mem;
  len = len;
  pos = 0;
  error = 0;
  writing = true;
}
set_msg_buffer none len = init_msg_buffer

pub set_msg_buffer_fatal_error : MsgBuffer → ℕ → MsgBuffer
set_msg_buffer_fatal_error mb error = record mb { error = error; writing = false }

-- `mb->pos += n`
pub advance : ℕ → MsgBuffer → MsgBuffer
advance n mb = record mb { pos = u32 (mb.pos + n) }

-- `memcpy(&mb->data[pos], xs, …)`
pub poke : ℕ → List ℕ → MsgBuffer → Option MsgBuffer
poke pos xs mb = do
  mem ← mb.bytes
  mem' ← copy_at mem pos xs
  some (record mb { bytes = some mem' })

-- Write `xs`, if it `fits`, at the position, and move behind it.
pub emit : Bool → List ℕ → MsgBuffer → Option MsgBuffer
unfolding advance poke set_msg_buffer_fatal_error
emit fits xs mb =
    if mb.writing
    then (if fits
        then (poke mb.pos xs mb >>= λ mb'. some (advance (length xs) mb'))
        else some (advance (length xs) (set_msg_buffer_fatal_error mb enobufs)))
    else some (advance (length xs) mb)

pub write_byte : MsgBuffer → ℕ → Option MsgBuffer
write_byte mb b = emit (ltb mb.pos mb.len) (b ∷ []) mb

pub write_bytes : MsgBuffer → List ℕ → Option MsgBuffer
write_bytes mb bytes = emit (leb (u32 (mb.pos + length bytes)) mb.len) bytes mb

pub store_uint32 : MsgBuffer → ℕ → Option MsgBuffer
store_uint32 mb value = emit (leb (u32 (mb.pos + 4)) mb.len) (four value) mb

pub store_uint64 : MsgBuffer → ℕ → Option MsgBuffer
store_uint64 mb value = emit (leb (u32 (mb.pos + 8)) mb.len) (eight value) mb

-- `write_ssh_string(&mb->data[pos], …)`: the result, and the buffer after it.
pub write_string_at : ℕ → StringArg → MsgBuffer → Option (ℕ × MsgBuffer)
write_string_at pos arg mb = do
  mem ← mb.bytes
  (n, tail) ← write_ssh_string (some (drop pos mem)) arg
  mem' ← tail
  some (n, record mb { bytes = some (take pos mem ++ mem') })

-- The string has to end before the end of the buffer: the test is `<` here, not `<=`.
pub dowrite_ssh_string : MsgBuffer → StringArg → Option MsgBuffer
unfolding write_string_at
dowrite_ssh_string mb arg = do
  (len, _) ← write_ssh_string none arg
  if ltb (u32 (mb.pos + len)) mb.len
      then (do (n, mb') ← write_string_at mb.pos arg mb; some (advance n mb'))
      else some (advance len (set_msg_buffer_fatal_error mb enobufs))

pub nowrite_ssh_string : MsgBuffer → StringArg → Option MsgBuffer
nowrite_ssh_string mb arg = do (len, _) ← write_ssh_string none arg; some (advance len mb)

pub msg_write_ssh_string : MsgBuffer → StringArg → Option MsgBuffer
unfolding dowrite_ssh_string nowrite_ssh_string
msg_write_ssh_string mb arg =
    if mb.writing then dowrite_ssh_string mb arg else nowrite_ssh_string mb arg

-- The position of the header, which `complete_ssh_string` fills in.
pub start_ssh_string : MsgBuffer → Option (ℕ × MsgBuffer)
unfolding msg_write_ssh_string
start_ssh_string mb = do mb' ← msg_write_ssh_string mb (length_only none); some (mb.pos, mb')

pub complete_ssh_string : MsgBuffer → ℕ → Option MsgBuffer
unfolding write_string_at
complete_ssh_string mb pos =
    if mb.writing
    then (do
      (_, mb') ←
          write_string_at pos (length_only (some (u32 (mb.pos + 2 ^ 32 + 2 ^ 32 - pos - 4)))) mb
      some mb')
    else some mb

pub fill_commalist : MsgBuffer → (MsgBuffer → Option MsgBuffer) → Option MsgBuffer
unfolding start_ssh_string complete_ssh_string
fill_commalist mb cb = do
  (pos, mb') ← start_ssh_string mb
  mb'' ← cb mb'
  complete_ssh_string mb'' pos

pub start_count : MsgBuffer → Option (ℕ × MsgBuffer)
unfolding store_uint32
start_count mb = do mb' ← store_uint32 mb 0; some (mb.pos, mb')

pub complete_count : MsgBuffer → ℕ → ℕ → Option MsgBuffer
complete_count mb pos count = if mb.writing then poke pos (four count) mb else some mb

-- The readers: the value (or the old one, `b`, where nothing is read) and the buffer after the read.
-- `here mb` is `&mb->data[mb->pos]`.
first : List ℕ → Option ℕ
first [] = none
first (x ∷ xs) = some x

here : MsgBuffer → Option (List ℕ)
here mb = mb.bytes >>= λ mem. some (drop mb.pos mem)

unfoldable pub msg_read_byte : MsgBuffer → ℕ → Option (ℕ × MsgBuffer)
unfolding here advance first
msg_read_byte mb b =
    if mb.error == 0
    then (if ltb mb.pos mb.len
        then (do mem ← here mb; xs ← read_bytes mem 1; x ← first xs; some (x, advance 1 mb))
        else some (b, record mb { error = eio }))
    else some (b, mb)

-- With fewer bytes left than are asked for, those are read, and the error is set.
unfoldable pub msg_read_bytes : MsgBuffer → ℕ → Option (List ℕ × MsgBuffer)
unfolding here advance
msg_read_bytes mb len =
    if mb.error == 0
    then (if ltb mb.pos mb.len
        then (if ltb (mb.len - mb.pos) len
            then (do
              mem ← here mb
              xs ← read_bytes mem (mb.len - mb.pos)
              some (xs, advance (mb.len - mb.pos) (record mb { error = eio })))
            else (do mem ← here mb; xs ← read_bytes mem len; some (xs, advance len mb)))
        else some ([], record mb { error = eio }))
    else some ([], mb)

-- No test of the position stands in front of these two reads.
unfoldable pub msg_read_uint32 : MsgBuffer → ℕ → Option (ℕ × MsgBuffer)
unfolding here advance
msg_read_uint32 mb result =
    if mb.error == 0
    then (do mem ← here mb; v ← get_uint32 mem; some (v, advance 4 mb))
    else some (result, mb)

unfoldable pub msg_read_uint64 : MsgBuffer → ℕ → Option (ℕ × MsgBuffer)
unfolding here advance
msg_read_uint64 mb result =
    if mb.error == 0
    then (do mem ← here mb; v ← get_uint64 mem; some (v, advance 8 mb))
    else some (result, mb)

unfoldable pub msg_read_ssh_string_header : MsgBuffer → ℕ → Option (ℕ × MsgBuffer)
unfolding here advance
msg_read_ssh_string_header mb len =
    if (mb.error == 0) && ltb mb.pos mb.len
    then (do
      mem ← here mb
      (n, len') ← read_ssh_string_header mem (mb.len - mb.pos) len
      some (len', advance n mb))
    else some (len, mb)

unfoldable pub msg_read_ssh_string : MsgBuffer → SshString → Option (SshString × MsgBuffer)
unfolding here advance
msg_read_ssh_string mb s =
    if (mb.error == 0) && ltb mb.pos mb.len
    then (do
      mem ← here mb
      (n, s') ← read_ssh_string mem (mb.len - mb.pos) s
      some (s', advance n mb))
    else some (s, mb)

unfoldable pub msg_count_strings : MsgBuffer → ℕ → Run ℕ
unfolding here
msg_count_strings mb max = elim (here mb) [
  | none ↦ done 0
  | some mem ↦
      if ltb mb.len (u32 (mb.pos + 4))
      then done 0
      else buffer_count_strings mem (u32 (mb.len + 2 ^ 32 - mb.pos)) max
]
