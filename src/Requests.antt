-- ===== src/Requests.antt =====
-- Requests that wait for an answer of the server: src/sftp/request-hash.c, on the lists of SimpleList. A
-- request is the number of the element that it holds. The headers of the store with the numbers below 64
-- are `hashtable`. The thread that receives answers is explicit: it holds the request that it has looked up.
-- What it does while a request waits is in the argument `rounds`; the locks are left out.
mod Tests
pub mod Loop
pub mod Table
pub mod Events
pub mod Wait
pub mod Answered
pub mod Live
use osns.Prelude.{
  ℕ, zero, suc, ◌+◌, ◌-◌, ◌/◌, ◌%◌, ◌^◌, Bool, true, false, Option, none, some, ◌==◌, List, [], ◌∷◌,
  if◌then◌else◌,
}
use osns.SshString.{Run, fault, out_of_fuel, done}
use osns.SimpleList.{Addr, head, tail, element, Heap, init_list_element}
use osns.SimpleList.Steps.{get_next_element}
use osns.SimpleList.Users.{get_list_head, remove_list_element, add_list_element_last}
use osns.SimpleHash.{init_headers}
use osns.Payload.{◌>>=◌, of_option}

abbrev pub hashsize : ℕ
hashsize = 64

-- `hashtable`, and the fields `list`, `id`, `status` and `reply.error` of the requests; `held` is the request
-- that the receiving thread has looked up.
pub record Requests : Type 0 where
  pub heap : Heap
  pub id : ℕ → ℕ
  pub status : ℕ → ℕ
  pub error : ℕ → ℕ
  pub held : Option ℕ
  pub initdone : Bool

unfoldable pub get_container_sftp_r : Addr → Option ℕ
get_container_sftp_r (head k) = none
get_container_sftp_r (tail k) = none
get_container_sftp_r (element i) = some i

-- The status is a word of bits, of which `k` numbers one.
unfoldable pub has_bit : ℕ → ℕ → Bool
has_bit k f = f / 2 ^ k % 2 == 1

unfoldable pub set_bit : ℕ → ℕ → ℕ
unfolding has_bit
set_bit k f = if has_bit k f then f else f + 2 ^ k

unfoldable pub clear_bit : ℕ → ℕ → ℕ
unfolding has_bit
clear_bit k f = if has_bit k f then f - 2 ^ k else f

abbrev pub waiting_bit : ℕ
waiting_bit = 1

abbrev pub response : ℕ
response = 2

abbrev pub finish : ℕ
finish = 3

abbrev pub interrupt : ℕ
interrupt = 4

abbrev pub timedout : ℕ
timedout = 5

abbrev pub disconnect : ℕ
disconnect = 6

abbrev pub failure : ℕ
failure = 7

unfoldable pub write_status : ℕ → (ℕ → ℕ) → Requests → Requests
write_status i f t = record t { status = λ j. if i == j then f (t.status j) else t.status j }

unfoldable pub write_error : ℕ → ℕ → Requests → Requests
write_error i n t = record t { error = λ j. if i == j then n else t.error j }

abbrev pub with_heap : Requests → Heap → Requests
with_heap t heap = record t { heap = heap }

unfoldable pub add_request_hashtable : ℕ → Requests → Run Requests
add_request_hashtable i t = do
  heap ← of_option (add_list_element_last (t.id i % hashsize) (element i) t.heap)
  done (with_heap t heap)

unfoldable pub remove_request_hashtable : ℕ → Requests → Run Requests
remove_request_hashtable i t = do
  heap ← of_option (remove_list_element (some (element i)) t.heap)
  done (with_heap t heap)

-- The request is found: it is removed, and the loop ends.
unfoldable pub take_found : ℕ → Requests → Run (Option ℕ × Requests)
take_found i t = do
  heap ← of_option (remove_list_element (some (element i)) t.heap)
  done (some i, with_heap t heap)

unfoldable pub try_request :
    ℕ → Requests → Option ℕ → Run (Option ℕ × Requests) → Run (Option ℕ × Requests)
unfolding take_found
try_request id t none rest = fault
try_request id t (some i) rest = if t.id i == id then take_found i t else rest

unfoldable pub lookup_loop : ℕ → ℕ → Option Addr → Requests → Run (Option ℕ × Requests)
unfolding try_request get_container_sftp_r
lookup_loop zero id list t = out_of_fuel
lookup_loop (suc fuel) id none t = done (none, t)
lookup_loop (suc fuel) id (some a) t =
    try_request id t (get_container_sftp_r a)
      (elim (get_next_element a t.heap) [ none ↦ fault | some next ↦ lookup_loop fuel id next t ])

-- A round passes a request.
unfoldable pub lookup_request_hashtable : ℕ → Requests → Run (Option ℕ × Requests)
unfolding lookup_loop
lookup_request_hashtable id t =
    let k = id % hashsize in
    lookup_loop ((t.heap.headers k).count + 1) id (get_list_head k t.heap) t

-- The status of a request that was found.
unfoldable pub mark : ℕ → ℕ
unfolding clear_bit set_bit
mark f = set_bit response (clear_bit waiting_bit f)

unfoldable pub mark_found : Option ℕ × Requests → Option ℕ × Requests
unfolding write_status mark
mark_found (none, t) = (none, t)
mark_found (some i, t) = (some i, write_status i mark t)

unfoldable pub get_sftp_request : ℕ → Requests → Run (Option ℕ × Requests)
unfolding lookup_request_hashtable mark_found
get_sftp_request id t = do found ← lookup_request_hashtable id t; done (mark_found found)

-- The status after a signal that the answer is complete.
unfoldable pub received : ℕ → ℕ
unfolding has_bit set_bit
received f = if has_bit response f then set_bit finish (f - 2 ^ response) else set_bit failure f

unfoldable pub signal_sftp_received_id : ℕ → Requests → Requests
unfolding write_status received
signal_sftp_received_id i t = write_status i received t

unfoldable pub signal_sftp_received_id_error : ℕ → Requests → Requests
unfolding write_status set_bit
signal_sftp_received_id_error i t = write_status i (λ f. set_bit failure f) t

-- The static table, if it is not set up yet.
unfoldable pub init_sftp_sendhash : Requests → Run Requests
init_sftp_sendhash t =
    let fresh : Run Requests = (do
      heap ← of_option (init_headers hashsize 0 t.heap)
      done (record t { heap = heap; initdone = true })) in
    if t.initdone then done t else fresh
