-- ===== src/AttrBuffer.antt =====
-- The buffer that SFTP attributes are read from and written to: src/lib/datatypes/buffer.c.
-- `left` is an `int` that the source compares as an unsigned number and never tests against 0 when it
-- moves, so it is kept as its pattern of 32 bits.
mod Tests
pub mod Complement
pub mod RoundTrip
use osns.Prelude.{
  ℕ, ◌+◌, ◌-◌, ◌*◌, ◌/◌, ◌%◌, ◌^◌, Bool, true, false, Option, none, some, List, [], ◌∷◌, ◌++◌,
}
use osns.Prelude.{leb, ltb, ◌==◌, ◌&&◌, if◌then◌else◌, length, drop, ◌>>=◌, bit_or}
use osns.Prelude.Int.{ℤ, pos, negsuc}
use osns.Memory.{read_bytes, bytes_at, copy_at}
use osns.Wire.{two, four, eight, get_uint16, get_uint32, get_uint64}
use osns.SshString.{SshString, u32}

-- The sets of functions that `ops` points to.
pub data Ops : Type 0 where
  ab_read ab_write ab_nowrite : Ops

pub record AttrBuffer : Type 0 where
  pub flags : ℕ
  pub buffer : Option (List ℕ)
  pub pos : ℕ
  pub left : ℕ
  pub len : ℕ
  pub count : ℕ
  pub ops : Ops

abbrev pub flag_read : ℕ
flag_read = 4

abbrev pub flag_write : ℕ
flag_write = 8

abbrev pub flag_nowrite : ℕ
flag_nowrite = 16

pub init_nowrite_attr_buffer : AttrBuffer
init_nowrite_attr_buffer = record {
  flags = flag_nowrite;
  buffer = none;
  pos = 0;
  left = 0;
  len = 0;
  count = 0;
  ops = ab_nowrite;
}

unfoldable pub set_attr_buffer_read : List ℕ → ℕ → AttrBuffer
set_attr_buffer_read mem len = record {
  flags = flag_read;
  buffer = some mem;
  pos = 0;
  left = len;
  len = len;
  count = 0;
  ops = ab_read;
}

unfoldable pub set_attr_buffer_nowrite : AttrBuffer → AttrBuffer
set_attr_buffer_nowrite ab = record ab { flags = flag_nowrite; ops = ab_nowrite }

unfoldable pub set_attr_buffer_write : List ℕ → ℕ → AttrBuffer
set_attr_buffer_write mem len = record {
  flags = flag_write;
  buffer = some mem;
  pos = 0;
  left = len;
  len = len;
  count = 0;
  ops = ab_write;
}

unfoldable pub reset_attr_buffer_write : AttrBuffer → AttrBuffer
reset_attr_buffer_write ab = record ab { pos = 0; left = ab.len; count = 0 }

unfoldable pub set_attr_buffer_count : AttrBuffer → ℕ → AttrBuffer
set_attr_buffer_count ab count = record ab { count = count }

unfoldable pub set_attr_buffer_flags : AttrBuffer → ℕ → AttrBuffer
set_attr_buffer_flags ab flags = record ab { flags = bit_or ab.flags flags }

-- `ab->pos += n`, and `ab->left -= n`
unfoldable pub pass : ℕ → AttrBuffer → AttrBuffer
pass n ab = record ab { pos = u32 (ab.pos + n); left = u32 (ab.left + 2 ^ 32 - n) }

unfoldable pub copy_buffer_data : AttrBuffer → List ℕ → Option AttrBuffer
unfolding pass
copy_buffer_data ab bytes = do
  mem ← ab.buffer
  mem' ← copy_at mem ab.pos bytes
  some (pass (length bytes) (record ab { buffer = some mem' }))

-- The two forms of each writer, `nowrite_…` and `write_…`. A buffer for reading has no writer.
unfoldable pub put_by : Ops → AttrBuffer → List ℕ → Option AttrBuffer
put_by ab_read ab bytes = none
put_by ab_write ab bytes = copy_buffer_data ab bytes
put_by ab_nowrite ab bytes = some (record ab { pos = u32 (ab.pos + length bytes) })

unfoldable pub put : AttrBuffer → List ℕ → Option AttrBuffer
unfolding put_by
put ab bytes = put_by ab.ops ab bytes

unfoldable pub write_uchar : AttrBuffer → ℕ → Option AttrBuffer
write_uchar ab b = put ab (b ∷ [])

-- A buffer that only counts does not read the bytes behind the pointer.
unfoldable pub uchars_by : Ops → AttrBuffer → Option (List ℕ) → ℕ → Option AttrBuffer
uchars_by ab_read ab ptr len = none
uchars_by ab_write ab ptr len = do bytes ← bytes_at ptr len; copy_buffer_data ab bytes
uchars_by ab_nowrite ab ptr len = some (record ab { pos = u32 (ab.pos + len) })

unfoldable pub write_uchars : AttrBuffer → Option (List ℕ) → ℕ → Option AttrBuffer
unfolding uchars_by
write_uchars ab ptr len = uchars_by ab.ops ab ptr len

unfoldable pub write_uint16 : AttrBuffer → ℕ → Option AttrBuffer
write_uint16 ab value = put ab (two value)

unfoldable pub write_uint32 : AttrBuffer → ℕ → Option AttrBuffer
write_uint32 ab value = put ab (four value)

unfoldable pub write_uint64 : AttrBuffer → ℕ → Option AttrBuffer
write_uint64 ab value = put ab (eight value)

-- With the negative numbers `-value` is `n + 1`, which does not fit at the least number of 64 bits.
unfoldable pub convert_int64_2c : ℤ → Option ℕ
convert_int64_2c (pos n) = some n
convert_int64_2c (negsuc n) =
    if n + 1 == 2 ^ 63 then none else some ((2 ^ 64 - 1 - (n + 1) + 1) % 2 ^ 64)

-- An unsigned pattern that is assigned to an `int64_t`.
unfoldable pub as_int64 : ℕ → ℤ
as_int64 w = if ltb w (2 ^ 63) then pos w else negsuc (2 ^ 64 - 1 - w)

-- `value & HIGHEST_BIT_64` is the digit at 2 ^ 63.
unfoldable pub convert_2c_int64 : ℕ → ℤ
unfolding as_int64
convert_2c_int64 value =
    if value / 2 ^ 63 % 2 == 1
    then as_int64 ((2 ^ 64 - (2 ^ 64 - 1 - (value - 1))) % 2 ^ 64)
    else as_int64 value

unfoldable pub write_int64 : AttrBuffer → ℤ → Option AttrBuffer
write_int64 ab value = do v ← convert_int64_2c value; put ab (eight v)

unfoldable pub write_string : AttrBuffer → SshString → Option AttrBuffer
write_string ab s = do ab' ← write_uint32 ab s.len; write_uchars ab' s.ptr s.len

unfoldable pub skip_by : Ops → AttrBuffer → ℕ → Option AttrBuffer
skip_by ab_read ab len = none
skip_by ab_write ab len = some (pass len ab)
skip_by ab_nowrite ab len = some (record ab { pos = u32 (ab.pos + len) })

unfoldable pub write_skip : AttrBuffer → ℕ → Option AttrBuffer
unfolding skip_by
write_skip ab len = skip_by ab.ops ab len

-- `&buffer[ab->pos]`
unfoldable pub ahead : AttrBuffer → Option (List ℕ)
ahead ab = do mem ← ab.buffer; some (drop ab.pos mem)

head_byte : List ℕ → Option ℕ
head_byte [] = none
head_byte (b ∷ _) = some b

-- The readers. None of them looks at `left` before it reads.
unfoldable pub read_uchar : AttrBuffer → Option (ℕ × AttrBuffer)
unfolding pass ahead head_byte
read_uchar ab = do mem ← ahead ab; b ← head_byte mem; some (b, pass 1 ab)

unfoldable pub read_uint16 : AttrBuffer → Option (ℕ × AttrBuffer)
unfolding pass ahead
read_uint16 ab = do mem ← ahead ab; v ← get_uint16 mem; some (v, pass 2 ab)

unfoldable pub read_uint32 : AttrBuffer → Option (ℕ × AttrBuffer)
unfolding pass ahead
read_uint32 ab = do mem ← ahead ab; v ← get_uint32 mem; some (v, pass 4 ab)

unfoldable pub read_uint64 : AttrBuffer → Option (ℕ × AttrBuffer)
unfolding pass ahead
read_uint64 ab = do mem ← ahead ab; v ← get_uint64 mem; some (v, pass 8 ab)

-- `cb` is the callback, as what it makes of the state behind its `ptr`. The result is the number of
-- bytes, the string, the state and the buffer.
module _ {S : Type 0} (cb : SshString → S → S) where
  unfoldable pub take_string :
      AttrBuffer → SshString → ℕ → S → Option (ℕ × SshString × S × AttrBuffer)
  unfolding pass ahead
  take_string ab s n state =
      if ltb 0 n && leb n ab.left
      then (do
        mem ← ahead ab
        let s' : SshString = record s { len = n; ptr = some mem }
        some (u32 (n + 4), s', cb s' state, pass n ab))
      else some (4, record s { len = n }, state, ab)

  unfoldable pub read_string : AttrBuffer → SshString → S → Option (ℕ × SshString × S × AttrBuffer)
  unfolding take_string
  read_string ab s state = do (n, ab') ← read_uint32 ab; take_string ab' s n state
