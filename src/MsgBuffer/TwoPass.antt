-- ===== src/MsgBuffer/TwoPass.antt =====
-- Messages are composed twice: a first pass without a buffer counts their size, a second writes them.
use osns.Prelude.{ℕ, ◌+◌, ◌-◌, ◌^◌, ◌<◌, ◌≡◌, sym, arith, ap, ◌∙◌}
use osns.Prelude.{true, false, Option, some, List, [], ◌∷◌, ◌++◌, ◌>>=◌, append-nil}
use osns.Prelude.{length, take, drop, length-append, append_assoc, take-append, drop-append}
use osns.Prelude.{ltb, lt→ltb, take-append-drop, length-take, length-drop}
use osns.Wire.{four}
use osns.Wire.RoundTrip.{store-four, length-four}
use osns.SshString.{ssh_string, u32, write_ssh_string}
use osns.SshString.RoundTrip.{encode, length-encode, string_of, write-null}
use osns.MsgBuffer.{MsgBuffer, init_msg_buffer, set_msg_buffer, msg_write_ssh_string, enobufs}
use osns.MsgBuffer.{advance, set_msg_buffer_fatal_error}
use osns.MsgBuffer.{start_ssh_string, complete_ssh_string, fill_commalist}
use osns.MsgBuffer.Write.{Item, write_item, image, filled, filled_moved, counting}
use osns.MsgBuffer.Write.{write_item-filled, write_item-counting}

unfoldable pub write_items : List Item → MsgBuffer → Option MsgBuffer
write_items [] mb = some mb
write_items (item ∷ items) mb = write_item item mb >>= write_items items

unfoldable pub images : List Item → List ℕ
images [] = []
images (item ∷ items) = image item ++ images items

write_items-counting :
    (items : List Item) (n : ℕ)
    → n + length (images items) < 2 ^ 32
    → write_items items (counting n) ≡ some (counting (n + length (images items)))
unfolding write_items images
write_items-counting [] n h = ground arith
write_items-counting (item ∷ items) n h =
    let parts = length-append (image item) (images items) in
    rw (write_item-counting item n (omega arith))
      (write_items-counting items (n + length (image item)) (omega arith) ∙ ground arith)

write_items-filled :
    (items : List Item) (front old rest : List ℕ)
    → length old ≡ length (images items)
    → 0 < length rest
    → length front + length (old ++ rest) < 2 ^ 32
    → write_items items (filled front (old ++ rest)) ≡ some (filled (front ++ images items) rest)
unfolding write_items images
write_items-filled [] front [] rest same room small = rw (append-nil front)
write_items-filled [] front (x ∷ old) rest same room small = absurd (omega arith)
write_items-filled (item ∷ items) front old rest same room small =
    let k = length (image item) in
    let parts = length-append (image item) (images items) in
    let here = length-take k old (omega arith) in
    let behind = length-drop k old in
    let split : take k old ++ (drop k old ++ rest) ≡ old ++ rest =
      sym (append_assoc (take k old) (drop k old) rest)
      ∙ ap (λ (t : List ℕ). t ++ rest) (take-append-drop k old) in
    rw (← split) (
      rw
        (write_item-filled item front (take k old) (drop k old ++ rest) here
          (omega (arith, length-append (drop k old) rest)) (rw split small))
        (write_items-filled items (front ++ image item) (drop k old) rest (omega arith) room (
            omega (
              arith,
              length-append front (image item),
              length-append (drop k old) rest,
              length-append old rest,
            ))
          ∙ rw (append_assoc front (image item) (images items))))

-- The first pass gives the size of the message, and changes nothing else. With a buffer that is larger
-- than that the second pass ends without an error, with the images of the items one after another at
-- the front of the buffer, and the rest of the buffer as it was.
pub two_pass :
    (items : List Item) (mem : List ℕ)
    → length (images items) < length mem
    → length mem < 2 ^ 32
    → (write_items items init_msg_buffer ≡ some (counting (length (images items))))
      × (write_items items (set_msg_buffer (some mem) (length mem))
          ≡ some (filled (images items) (drop (length (images items)) mem)))
unfolding set_msg_buffer
two_pass items mem room small =
    let n = length (images items) in
    let left = length-drop n mem in
    let front = length-take n mem (omega arith) in
    let start : set_msg_buffer (some mem) (length mem) ≡ filled [] (take n mem ++ drop n mem) =
      ground (arith, take-append-drop n mem) in
    (
      write_items-counting items 0 (omega arith) ∙ ground arith,
      rw start (
          write_items-filled items [] (take n mem) (drop n mem) front (omega arith)
            (omega (arith, length-append (take n mem) (drop n mem)))),
    )

-- A buffer of exactly the size of a string is refused, although the string fits: the buffer is left as
-- it was, with the error ENOBUFS. (The other writers take the last byte too.)
string_exact :
    (xs mem : List ℕ)
    → length mem ≡ length xs + 4
    → length mem < 2 ^ 32
    → (msg_write_ssh_string (set_msg_buffer (some mem) (length mem)) (ssh_string (string_of xs))
        ≡ some (record {
          bytes = some mem;
          len = length mem;
          pos = length mem;
          error = enobufs;
          writing = false;
        }))
unfolding msg_write_ssh_string set_msg_buffer advance set_msg_buffer_fatal_error
string_exact xs mem room small =
    let full : ltb (u32 (0 + (length xs + 4))) (length mem) ≡ false = ground arith in
    let size : u32 (4 + length xs) ≡ length xs + 4 = omega arith in
    rw (write-null (string_of xs), size, full) (ground arith)

start-filled :
    (front old rest : List ℕ)
    → length old ≡ 4
    → 0 < length rest
    → length front + length (old ++ rest) < 2 ^ 32
    → start_ssh_string (filled front (old ++ rest))
      ≡ some (length front, filled (front ++ four 0) rest)
unfolding start_ssh_string write_ssh_string advance
start-filled front old rest h room small =
    let parts = length-append old rest in
    let fits : ltb (u32 (length front + 4)) (length front + length (old ++ rest)) ≡ true =
      lt→ltb _ _ (omega arith) in
    rw
      (
        fits,
        drop-append front (old ++ rest),
        take-append front (old ++ rest),
        store-four 0 old rest h,
      )
      (ap some (
        ground (
          arith,
          filled_moved front (four 0) rest (length front + 4) (length front + length (old ++ rest)),
          length-four 0,
        )))

-- The header of a string whose bytes end at the position.
complete-header :
    (front tail : List ℕ) (l p n : ℕ)
    → u32 (p + 2 ^ 32 + 2 ^ 32 - length front - 4) ≡ n
    → complete_ssh_string
        (record {
          bytes = some (front ++ (four 0 ++ tail));
          len = l;
          pos = p;
          error = 0;
          writing = true;
        })
        (length front)
      ≡ some (record {
        bytes = some (front ++ (four n ++ tail));
        len = l;
        pos = p;
        error = 0;
        writing = true;
      })
unfolding complete_ssh_string write_ssh_string
complete-header front tail l p n e = rw (
  e,
  drop-append front (four 0 ++ tail),
  take-append front (four 0 ++ tail),
  store-four n (four 0) tail (length-four 0),
)

complete-filled :
    (front xs rest : List ℕ)
    → length front + (4 + length xs) < 2 ^ 32
    → complete_ssh_string (filled ((front ++ four 0) ++ xs) rest) (length front)
      ≡ some (filled (front ++ encode xs) rest)
complete-filled front xs rest small =
    let p = length ((front ++ four 0) ++ xs) in
    let size : p ≡ length front + 4 + length xs =
      omega
        (arith, length-append (front ++ four 0) xs, length-append front (four 0), length-four 0) in
    let before : (((front ++ four 0) ++ xs) ++ rest) ≡ front ++ (four 0 ++ (xs ++ rest)) =
      append_assoc (front ++ four 0) xs rest ∙ append_assoc front (four 0) (xs ++ rest) in
    let after : front ++ (four (length xs) ++ (xs ++ rest)) ≡ (front ++ encode xs) ++ rest =
      unfold encode in
      (ap (λ (t : List ℕ). front ++ t) (sym (append_assoc (four (length xs)) xs rest))
        ∙ sym (append_assoc front (four (length xs) ++ xs) rest)) in
    rw before (
      complete-header front (xs ++ rest) (p + length rest) p (length xs) (omega arith)
      ∙ ap some (ground (arith, after, length-append front (encode xs), length-encode xs)))

-- A string that is started, filled with items and completed is the encoding of what the items wrote.
fill_commalist-encode :
    (items : List Item) (front old rest : List ℕ)
    → length old ≡ length (images items) + 4
    → 0 < length rest
    → length front + length (old ++ rest) < 2 ^ 32
    → fill_commalist (filled front (old ++ rest)) (write_items items)
      ≡ some (filled (front ++ encode (images items)) rest)
unfolding fill_commalist
fill_commalist-encode items front old rest same room small =
    let xs = images items in
    let parts = length-append old rest in
    let behind = length-drop 4 old in
    let split : take 4 old ++ (drop 4 old ++ rest) ≡ old ++ rest =
      sym (append_assoc (take 4 old) (drop 4 old) rest)
      ∙ ap (λ (t : List ℕ). t ++ rest) (take-append-drop 4 old) in
    rw (← split) (
      rw
        (start-filled front (take 4 old) (drop 4 old ++ rest) (length-take 4 old (omega arith))
          (omega (arith, length-append (drop 4 old) rest)) (rw split small))
        (rw
          (write_items-filled items (front ++ four 0) (drop 4 old) rest (omega arith) room (
            omega (
              arith,
              length-append front (four 0),
              length-four 0,
              length-append (drop 4 old) rest,
            )))
          (complete-filled front xs rest (omega arith))))
