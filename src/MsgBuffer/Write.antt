-- ===== src/MsgBuffer/Write.antt =====
-- The writes as a list of items, what each puts on the wire, and what a write does to a buffer that
-- has room for it.
use osns.Prelude.{ℕ, ◌+◌, ◌^◌, ◌<◌, ◌≡◌, arith, ap}
use osns.Prelude.{Bool, true, false, Option, none, some, List, [], ◌∷◌, ◌++◌}
use osns.Prelude.{length, length-append, append_assoc, take-append, drop-append}
use osns.Prelude.{ltb, lt→ltb}
use osns.Memory.{copy_at-append}
use osns.Wire.{four, eight}
use osns.Wire.RoundTrip.{length-four, length-eight}
use osns.SshString.{ssh_string, u32}
use osns.SshString.RoundTrip.{encode, length-encode, string_of, write-string_of, write-null}
use osns.MsgBuffer.{MsgBuffer, write_byte, write_bytes, store_uint32, store_uint64, emit}
use osns.MsgBuffer.{msg_write_ssh_string, dowrite_ssh_string, nowrite_ssh_string, write_string_at}
use osns.MsgBuffer.{advance}

-- A call of one of the writers.
pub data Item : Type 0 where
  byte : ℕ → Item
  bytes : List ℕ → Item
  uint32 : ℕ → Item
  uint64 : ℕ → Item
  string : List ℕ → Item

unfoldable pub write_item : Item → MsgBuffer → Option MsgBuffer
write_item (byte b) mb = write_byte mb b
write_item (bytes xs) mb = write_bytes mb xs
write_item (uint32 v) mb = store_uint32 mb v
write_item (uint64 v) mb = store_uint64 mb v
write_item (string xs) mb = msg_write_ssh_string mb (ssh_string (string_of xs))

-- What the item is on the wire.
unfoldable pub image : Item → List ℕ
image (byte b) = b ∷ []
image (bytes xs) = xs
image (uint32 v) = four v
image (uint64 v) = eight v
image (string xs) = encode xs

-- A buffer with `front` written, and room for `back`.
abbrev pub filled : List ℕ → List ℕ → MsgBuffer
filled front back = record {
  bytes = some (front ++ back);
  len = length front + length back;
  pos = length front;
  error = 0;
  writing = true;
}

-- A buffer that counts.
abbrev pub counting : ℕ → MsgBuffer
counting n = record { bytes = none; len = 0; pos = n; error = 0; writing = false }

pub filled_moved :
    (front xs rest : List ℕ) (n l : ℕ)
    → n ≡ length front + length xs
    → l ≡ length front + (length xs + length rest)
    → ◌≡◌ {A = MsgBuffer}
        (record {
          bytes = some (front ++ (xs ++ rest));
          len = l;
          pos = n;
          error = 0;
          writing = true;
        })
        (filled (front ++ xs) rest)
filled_moved front xs rest n l hn hl =
    ground (arith, append_assoc front xs rest, length-append front xs)

emit-filled :
    (front xs old rest : List ℕ) (fits : Bool)
    → fits ≡ true
    → length old ≡ length xs
    → length front + length (xs ++ rest) < 2 ^ 32
    → emit fits xs (filled front (old ++ rest)) ≡ some (filled (front ++ xs) rest)
unfolding emit
emit-filled front xs old rest fits ok same small =
    rw (ok, copy_at-append front xs old rest same)
      (ap some (
        filled_moved front xs rest _ _ (omega (arith, length-append xs rest))
          (omega (arith, length-append old rest))))

write_string_at-filled :
    (front xs old rest : List ℕ)
    → length xs + 4 < 2 ^ 32
    → length old ≡ length xs + 4
    → write_string_at (length front) (ssh_string (string_of xs)) (filled front (old ++ rest))
      ≡ some (
        length xs + 4,
        record (filled front (old ++ rest)) { bytes = some (front ++ (encode xs ++ rest)) },
      )
unfolding write_string_at
write_string_at-filled front xs old rest fits room = rw (
  drop-append front (old ++ rest),
  take-append front (old ++ rest),
  write-string_of xs old rest fits room,
)

pub string-filled :
    (front xs old rest : List ℕ)
    → length old ≡ length (encode xs)
    → 0 < length rest
    → length front + length (old ++ rest) < 2 ^ 32
    → msg_write_ssh_string (filled front (old ++ rest)) (ssh_string (string_of xs))
      ≡ some (filled (front ++ encode xs) rest)
unfolding msg_write_ssh_string dowrite_ssh_string advance
string-filled front xs old rest same room small =
    let wide = length-encode xs in
    let parts = length-append old rest in
    let size : u32 (4 + length xs) ≡ length xs + 4 = omega arith in
    let fits : ltb (u32 (length front + (length xs + 4))) (length front + length (old ++ rest))
        ≡ true =
      lt→ltb _ _ (omega arith) in
    rw
      (
        write-null (string_of xs),
        size,
        fits,
        write_string_at-filled front xs old rest (omega arith) (omega arith),
      )
      (ap some (filled_moved front (encode xs) rest _ _ (omega arith) (omega arith)))

pub write_item-filled :
    (item : Item) (front old rest : List ℕ)
    → length old ≡ length (image item)
    → 0 < length rest
    → length front + length (old ++ rest) < 2 ^ 32
    → write_item item (filled front (old ++ rest)) ≡ some (filled (front ++ image item) rest)
unfolding write_item write_byte write_bytes store_uint32 store_uint64 image
write_item-filled (byte b) front old rest same room small =
    let parts = length-append old rest in
    emit-filled front (b ∷ []) old rest _ (ground arith) same (omega arith)
write_item-filled (bytes xs) front old rest same room small =
    let parts = length-append old rest in
    emit-filled front xs old rest _ (ground arith) same (omega (arith, length-append xs rest))
write_item-filled (uint32 v) front old rest same room small =
    let parts = length-append old rest in
    emit-filled front (four v) old rest _ (ground (arith, length-four v)) same
      (omega (arith, length-append (four v) rest))
write_item-filled (uint64 v) front old rest same room small =
    let parts = length-append old rest in
    emit-filled front (eight v) old rest _ (ground (arith, length-eight v)) same
      (omega (arith, length-append (eight v) rest))
write_item-filled (string xs) front old rest same room small =
    string-filled front xs old rest same room small

pub write_item-counting :
    (item : Item) (n : ℕ)
    → n + length (image item) < 2 ^ 32
    → write_item item (counting n) ≡ some (counting (n + length (image item)))
unfolding write_item write_byte write_bytes store_uint32 store_uint64 emit advance
    msg_write_ssh_string nowrite_ssh_string image
write_item-counting (byte b) n h = ground arith
write_item-counting (bytes xs) n h = ground arith
write_item-counting (uint32 v) n h = ground (arith, length-four v)
write_item-counting (uint64 v) n h = ground (arith, length-eight v)
write_item-counting (string xs) n h =
    rw (write-null (string_of xs)) (ground (arith, length-encode xs))
