-- ===== src/MsgBuffer/Read.antt =====
-- What the writers wrote is read back, item by item; and the reads that have no bounds test.
use osns.Prelude.{ℕ, ◌+◌, ◌-◌, ◌^◌, ◌<◌, ◌≡◌, refl, arith, ap}
use osns.Prelude.{true, false, none, some, List, [], ◌∷◌, ◌++◌}
use osns.Prelude.{length, length-append, drop-append}
use osns.Prelude.{ltb, lt→ltb}
use osns.Memory.{read_bytes, read_bytes-append}
use osns.Wire.{four, eight, IsU32, IsU64}
use osns.Wire.RoundTrip.{
  get-four, get-eight, length-four, length-eight, get_uint32-short, get_uint64-short,
}
use osns.SshString.{SshString, ssh_string_init}
use osns.SshString.RoundTrip.{Holds, encode, length-encode, read-encode}
use osns.MsgBuffer.{MsgBuffer, msg_read_byte, msg_read_bytes, msg_read_uint32, msg_read_uint64}
use osns.MsgBuffer.{msg_read_ssh_string, here, advance, first}
use osns.MsgBuffer.Write.{Item, byte, bytes, uint32, uint64, string, image, filled, filled_moved}

-- The outcome of reading an item of the same kind.
abbrev pub Reads : Item → MsgBuffer → MsgBuffer → Type 0
Reads (byte b) mb mb' = msg_read_byte mb 0 ≡ some (b, mb')
Reads (bytes xs) mb mb' = msg_read_bytes mb (length xs) ≡ some (xs, mb')
Reads (uint32 v) mb mb' = msg_read_uint32 mb 0 ≡ some (v, mb')
Reads (uint64 v) mb mb' = msg_read_uint64 mb 0 ≡ some (v, mb')
Reads (string xs) mb mb' =
    (s : SshString) × (msg_read_ssh_string mb ssh_string_init ≡ some (s, mb')) × Holds s xs

-- The values of an item fit the integers that they are written as.
abbrev pub Fits : Item → Type 0
Fits (byte b) = b < 256
Fits (bytes xs) = 0 < length xs
Fits (uint32 v) = IsU32 v
Fits (uint64 v) = IsU64 v
Fits (string xs) = Unit

more :
    (front xs rest : List ℕ)
    → 0 < length xs
    → ltb (length front) (length front + length (xs ++ rest)) ≡ true
more front xs rest h = lt→ltb _ _ (omega (arith, length-append xs rest))

-- Reading an item from a buffer that has its image at the position gives the item's value, and moves
-- the position behind it.
pub read_item-image :
    (item : Item) (front rest : List ℕ)
    → Fits item
    → length front + length (image item ++ rest) < 2 ^ 32
    → Reads item (filled front (image item ++ rest)) (filled (front ++ image item) rest)
unfolding image here advance msg_read_byte msg_read_bytes msg_read_uint32 msg_read_uint64
    msg_read_ssh_string read_bytes first
read_item-image (byte b) front rest fits small =
    rw (more front (b ∷ []) rest (omega arith), drop-append front (b ∷ rest))
      (ap (λ t. some (b, t)) (filled_moved front (b ∷ []) rest _ _ (omega arith) (omega arith)))
read_item-image (bytes xs) front rest fits small =
    let enough : ltb (length front + length (xs ++ rest) - length front) (length xs) ≡ false =
      ground (arith, length-append xs rest) in
    rw (more front xs rest fits, enough, drop-append front (xs ++ rest), read_bytes-append xs rest)
      (ap (λ t. some (xs, t))
        (filled_moved front xs rest _ _ (omega (arith, length-append xs rest))
          (omega (arith, length-append xs rest))))
read_item-image (uint32 v) front rest fits small =
    rw (drop-append front (four v ++ rest), get-four v rest fits)
      (ap (λ t. some (v, t))
        (filled_moved front (four v) rest _ _
          (omega (arith, length-four v, length-append (four v) rest))
          (omega (arith, length-append (four v) rest))))
read_item-image (uint64 v) front rest fits small =
    rw (drop-append front (eight v ++ rest), get-eight v rest fits)
      (ap (λ t. some (v, t))
        (filled_moved front (eight v) rest _ _
          (omega (arith, length-eight v, length-append (eight v) rest))
          (omega (arith, length-append (eight v) rest))))
read_item-image (string xs) front rest fits small =
    let wide = length-encode xs in
    let parts = length-append (encode xs) rest in
    let left = length front + length (encode xs ++ rest) - length front in
    let (s, e, holds, _) =
      read-encode ssh_string_init xs rest left refl (omega arith) (omega arith) in
    (
      s,
      rw (more front (encode xs) rest (omega arith), drop-append front (encode xs ++ rest), e)
          (ap (λ t. some (s, t))
            (filled_moved front (encode xs) rest _ _ (omega arith) (omega arith))),
      holds,
    )

-- `msg_read_uint32` and `msg_read_uint64` do not look at the position: with fewer than four bytes left
-- in the buffer, and no error so far, they read behind its end.
read_uint32_overrun :
    (front back : List ℕ) (v : ℕ)
    → length back < 4
    → (msg_read_uint32 (filled front back) v ≡ none)
      × (msg_read_uint64 (filled front back) v ≡ none)
unfolding msg_read_uint32 msg_read_uint64 here
read_uint32_overrun front back v short = (
  rw (drop-append front back, get_uint32-short back short),
  rw (drop-append front back, get_uint64-short back (omega arith)),
)
