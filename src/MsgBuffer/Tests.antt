-- ===== src/MsgBuffer/Tests.antt =====
-- The theorems on message buffers at concrete messages.
use osns.Prelude.{ℕ, ◌≡◌, arith, some, List, [], ◌∷◌, ◌++◌, length, drop}
use osns.Wire.{four, eight}
use osns.SshString.RoundTrip.{encode}
use osns.MsgBuffer.{init_msg_buffer, set_msg_buffer}
use osns.MsgBuffer.Write.{Item, byte, uint32, uint64, string, image, filled, counting}
use osns.MsgBuffer.TwoPass.{write_items, images, two_pass}
use osns.MsgBuffer.Read.{Reads, read_item-image}

abbrev request : List Item
request = byte 50 ∷ uint32 7 ∷ string (1 ∷ 2 ∷ []) ∷ []

abbrev room : List ℕ
room = 9 ∷ 9 ∷ 9 ∷ 9 ∷ 9 ∷ 9 ∷ 9 ∷ 9 ∷ 9 ∷ 9 ∷ 9 ∷ 9 ∷ []

two_pass_example :
    (write_items request init_msg_buffer ≡ some (counting (length (images request))))
    × (write_items request (set_msg_buffer (some room) (length room))
        ≡ some (filled (images request) (drop (length (images request)) room)))
unfolding images image encode four
two_pass_example = two_pass request room (omega arith) (omega arith)

read_item-image_example :
    Reads
      (uint64 7)
      (filled (3 ∷ []) (image (uint64 7) ++ (4 ∷ [])))
      (filled ((3 ∷ []) ++ image (uint64 7)) (4 ∷ []))
unfolding image eight
read_item-image_example = read_item-image (uint64 7) (3 ∷ []) (4 ∷ []) (omega arith) (omega arith)
