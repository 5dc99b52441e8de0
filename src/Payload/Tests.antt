-- ===== src/Payload/Tests.antt =====
-- The theorems on queues, at a queue that begins empty.
use osns.Prelude.{◌≡◌, refl, arith, false, none, List, [], ◌∷◌, if◌then◌else◌}
use osns.SshString.{done}
use osns.SimpleList.{
  Addr, element, Heap, empty_header_ops, standalone_element_ops, same_addr, head, tail,
  link_between,
}
use osns.SimpleList.Grow.{grow_ops, grow-IsList}
use osns.SimpleList.Users.{fresh_header}
use osns.SimpleList.Lists.{IsList, fresh-IsList}
use osns.Payload.{
  Choice, selects, passes, Got, got_payload, Round, woken, timed_out, get_ssh_payload,
  clear_payload_queue,
}
use osns.Payload.Queue.{Arrives, Gets, fetch, get_ssh_payload-fetch}
use osns.Payload.Live.{signal, get_ssh_payload-signals}

abbrev empty : Heap
empty = fresh_header 0 (record {
  h = λ a. none;
  n = λ a. none;
  p = λ a. none;
  ops = λ a. standalone_element_ops;
  headers = λ k. record { flags = 0; count = 0; ops = empty_header_ops };
})

empty-IsList : IsList empty 0 []
empty-IsList = fresh-IsList _ 0

abbrev request : Addr
request = element 1

abbrev debug : Addr
debug = element 2

abbrev reply : Addr
reply = element 3

abbrev is_reply : Addr → Choice
is_reply e = if same_addr reply e then selects else passes

-- A signal with one payload, and then one with two.
abbrev rounds : List Round
rounds = signal (request ∷ []) ∷ signal (debug ∷ reply ∷ []) ∷ []

rounds-Arrives : Arrives 0 [] rounds
unfolding same_addr
rounds-Arrives = (
  omega arith,
  (
    ((refl, (refl, tt)), tt),
    omega arith,
    (
      omega arith,
      (
        ((refl, (refl, (refl, tt))), ((refl, (refl, (refl, (refl, tt)))), tt)),
        omega arith,
        omega arith,
      ),
    ),
  ),
)

get_ssh_payload-signals_example :
    (heap' : Heap) × (get_ssh_payload 0 is_reply rounds empty ≡ done (got_payload reply, heap'))
    × IsList heap' 0 (request ∷ debug ∷ [])
unfolding same_addr osns.Payload.Live.concat
get_ssh_payload-signals_example =
    get_ssh_payload-signals is_reply empty 0 ((request ∷ []) ∷ []) [] [] (debug ∷ []) [] reply
      empty-IsList rounds-Arrives (refl, (refl, tt)) refl

-- The wait ends by the time.
abbrev late : List Round
late = signal (request ∷ []) ∷ record { breaks = false; wake = timed_out } ∷ []

late-Arrives : Arrives 0 [] late
unfolding same_addr
late-Arrives = (omega arith, (((refl, (refl, tt)), tt), omega arith, (omega arith, tt)))

get_ssh_payload-fetch_example :
    Gets 0 (get_ssh_payload 0 is_reply late empty) (fetch is_reply late [])
get_ssh_payload-fetch_example =
    get_ssh_payload-fetch is_reply late empty 0 [] empty-IsList late-Arrives

abbrev one : Heap
one = grow_ops 0 0 (link_between 0 (head 0) request (tail 0) empty)

one-IsList : IsList one 0 (request ∷ [])
unfolding same_addr
one-IsList =
    grow-IsList empty 0 [] [] [] (head 0) request (tail 0) [] empty-IsList
      (record { front_eq = refl; back_eq = refl }) (refl, (refl, tt)) (omega arith)
