-- ===== src/Payload.antt =====
-- Queues of payloads: src/lib/ssh/payload.c, on the lists of SimpleList. A payload is the element that it
-- holds. A thread that waits for a payload has the lock of the queue's signal; what happens while it waits
-- for the condition is in the argument `rounds`.
mod Tests
pub mod Select
pub mod Queue
pub mod Live
pub mod Clear
use osns.Prelude.{
  ℕ, zero, suc, ◌+◌, Bool, true, false, Option, none, some, List, [], ◌∷◌, if◌then◌else◌,
}
use osns.SshString.{Run, fault, out_of_fuel, done}
use osns.SimpleList.{Addr, Heap}
use osns.SimpleList.Steps.{get_next_element}
use osns.SimpleList.Users.{
  get_list_head, remove_list_element, remove_list_head, add_list_element_last, init_list_header,
  type_empty,
}

infixl 5 ◌>>=◌
abbrev pub ◌>>=◌ : {A B : Type 0} → Run A → (A → Run B) → Run B
fault >>= f = fault
out_of_fuel >>= f = out_of_fuel
done a >>= f = f a

-- NULL that is followed is a fault.
abbrev pub of_option : {A : Type 0} → Option A → Run A
of_option none = fault
of_option (some a) = done a

-- The results of `cb_select`: 1, -1, and any other.
pub data Choice : Type 0 where
  selects ends passes : Choice

-- The results of `select_requested_payload`, with the payload.
pub data Found : Type 0 where
  not_found : Found
  taken : Addr → Found
  seen : Addr → Found

-- One round of the loop, with what the others give.
unfoldable pub choose : Choice → Addr → Heap → Run (Found × Heap) → Run (Found × Heap)
choose selects e heap rest = do
  heap' ← of_option (remove_list_element (some e) heap)
  done (taken e, heap')
choose ends e heap rest = done (seen e, heap)
choose passes e heap rest = rest

unfoldable pub select_loop : ℕ → (Addr → Choice) → Option Addr → Heap → Run (Found × Heap)
unfolding choose
select_loop zero cb_select e heap = out_of_fuel
select_loop (suc fuel) cb_select none heap = done (not_found, heap)
select_loop (suc fuel) cb_select (some e) heap =
    let rest : Run (Found × Heap) = elim (get_next_element e heap) [
      | none ↦ fault
      | some n ↦ select_loop fuel cb_select n heap
    ] in
    choose (cb_select e) e heap rest

-- A round passes a payload.
unfoldable pub select_requested_payload : ℕ → (Addr → Choice) → Heap → Run (Found × Heap)
unfolding select_loop
select_requested_payload k cb_select heap =
    select_loop ((heap.headers k).count + 1) cb_select (get_list_head k heap) heap

unfoldable pub queue_ssh_payload : ℕ → Addr → Heap → Run Heap
queue_ssh_payload k payload heap = of_option (add_list_element_last k payload heap)

-- The calls of other threads.
unfoldable pub queue_all : ℕ → List Addr → Heap → Run Heap
unfolding queue_ssh_payload
queue_all k [] heap = done heap
queue_all k (p ∷ ps) heap = do heap' ← queue_ssh_payload k p heap; queue_all k ps heap'

-- What ends a wait: the time, or a signal, with what was queued before it.
pub data Wake : Type 0 where
  timed_out : Wake
  woken : List Addr → Wake

-- What `cb_break` says, and how the wait ends that follows.
pub record Round : Type 0 where
  pub breaks : Bool
  pub wake : Wake

-- The payload, NULL by `cb_break`, NULL behind a call of `cb_error` with ETIMEDOUT, or a thread that waits
-- when the rounds end.
pub data Got : Type 0 where
  got_payload : Addr → Got
  broken_off expired waiting : Got

unfoldable pub got_of : Found → Heap → Run (Got × Heap) → Run (Got × Heap)
got_of not_found heap rest = rest
got_of (taken e) heap rest = done (got_payload e, heap)
got_of (seen e) heap rest = done (got_payload e, heap)

-- What follows a search without a result; `go_on` takes what was queued during the wait.
unfoldable pub after_round : Bool → Wake → Heap → (List Addr → Run (Got × Heap)) → Run (Got × Heap)
after_round true wake heap go_on = done (broken_off, heap)
after_round false timed_out heap go_on = done (expired, heap)
after_round false (woken ps) heap go_on = go_on ps

unfoldable pub get_ssh_payload : ℕ → (Addr → Choice) → List Round → Heap → Run (Got × Heap)
unfolding select_requested_payload got_of after_round queue_all
get_ssh_payload k cb_select [] heap = do
  (found, heap') ← select_requested_payload k cb_select heap
  got_of found heap' (done (waiting, heap'))
get_ssh_payload k cb_select (r ∷ rounds) heap = do
  (found, heap') ← select_requested_payload k cb_select heap
  got_of found heap' (
      after_round r.breaks r.wake heap'
        (λ ps. do heap'' ← queue_all k ps heap'; get_ssh_payload k cb_select rounds heap''))

-- `cb_select` is NULL.
unfoldable pub cb_select_payload_default : Addr → Choice
cb_select_payload_default payload = selects

unfoldable pub init_payload_queue : ℕ → Heap → Run Heap
init_payload_queue k heap = of_option (init_list_header k type_empty none heap)

-- The result: the payloads that are freed. A round takes a payload.
unfoldable pub clear_loop : ℕ → ℕ → Heap → Run (List Addr × Heap)
clear_loop zero k heap = out_of_fuel
clear_loop (suc fuel) k heap = elim (remove_list_head k heap) [
  | none ↦ fault
  | some (none, heap') ↦ done ([], heap')
  | some (some e, heap') ↦ do (freed, heap'') ← clear_loop fuel k heap'; done (e ∷ freed, heap'')
]

unfoldable pub clear_payload_queue : ℕ → Heap → Run (List Addr × Heap)
unfolding clear_loop
clear_payload_queue k heap = clear_loop ((heap.headers k).count + 1) k heap
