-- ===== src/Requests/Live.antt =====
-- An answer ends the wait for it.
use osns.Prelude.{
  ℕ, zero, suc, ◌-◌, ◌/◌, ◌%◌, ◌^◌, ◌≡◌, refl, ap, ◌∙◌, arith, true, false, Bool-cases, inl, inr,
  some, none, List, [], ◌∷◌, ◌==◌, ==_refl,
}
use osns.SshString.{done}
use osns.SimpleList.{Addr, element, same_addr, Heap}
use osns.Channels.Members.{contains, contains-end}
use osns.Requests.{
  Requests, hashsize, has_bit, set_bit, response, finish, failure, mark, received, take_found,
  lookup_request_hashtable, with_heap, write_status, signal_sftp_received_id,
}
use osns.Requests.Loop.{
  Event, answer, complete, woken, Round, Ended, result, wait_loop, wait_sftp_response, receive_all,
  receive,
}
use osns.Requests.Table.{IsRows, lookup_request_hashtable-Answer}
use osns.Requests.Events.{IsAbsent, Taken, take-Taken, answer-found}
use osns.Requests.Wait.{IsOpen}
use osns.Requests.Answered.{
  row_of, HasRoom, with_request, with_request-IsSmall, Entered, wait-Entered, is_inside,
}

-- A round in which nothing but the receiving thread has an event.
abbrev pub quiet : List Event → Round
quiet events = record {
  interrupted = false;
  breaks = false;
  on_sequence = false;
  disconnected = false;
  wake = woken events;
}

-- Some signals for nothing.
unfoldable pub idle : ℕ → List Round → List Round
idle zero rounds = rounds
idle (suc n) rounds = quiet [] ∷ idle n rounds

-- No request in the row has the id of this one.
abbrev pub IsUnique : ℕ → Requests → (ℕ → List Addr) → Type 0
IsUnique i t b = (j : ℕ) → contains (element j) (b (row_of i t)) ≡ true → (t.id j == t.id i) ≡ false

set_response : (f : ℕ) → has_bit response (set_bit response f) ≡ true
unfolding has_bit set_bit
set_response f = elim (Bool-cases (f / 4 % 2 == 1)) [
  | inl t ↦ rw (t, t) refl
  | inr n ↦ rw n (ground arith)
]

set_finish : (f : ℕ) → has_bit finish (set_bit finish f) ≡ true
unfolding has_bit set_bit
set_finish f = elim (Bool-cases (f / 8 % 2 == 1)) [
  | inl t ↦ rw (t, t) refl
  | inr n ↦ rw n (ground arith)
]

received-finish : (f : ℕ) → has_bit finish (received (mark f)) ≡ true
unfolding received mark
received-finish f =
    rw (set_response (osns.Requests.clear_bit osns.Requests.waiting_bit f))
      (set_finish (mark f - 2 ^ response))

finished :
    (i : ℕ) (rounds : List Round) (t : Requests)
    → has_bit finish (t.status i) ≡ true
    → wait_loop i rounds t ≡ done (result true, t)
unfolding wait_loop
finished i [] t e = rw e refl
finished i (r ∷ rounds) t e = rw e refl

quiet-step :
    (i : ℕ) (events : List Event) (rounds : List Round) (t t' : Requests)
    → has_bit finish (t.status i) ≡ false
    → has_bit failure (t.status i) ≡ false
    → receive_all events t ≡ done t'
    → wait_loop i (quiet events ∷ rounds) t ≡ wait_loop i rounds t'
unfolding wait_loop osns.Requests.Loop.check osns.Requests.Loop.sleep
quiet-step i events rounds t t' no_finish no_failure run = rw (no_finish, no_failure, run) refl

idle-step :
    (i n : ℕ) (rounds : List Round) (t : Requests)
    → has_bit finish (t.status i) ≡ false
    → has_bit failure (t.status i) ≡ false
    → wait_loop i (idle n rounds) t ≡ wait_loop i rounds t
unfolding idle receive_all
idle-step i zero rounds t no_finish no_failure = refl
idle-step i (suc n) rounds t no_finish no_failure =
    quiet-step i [] (idle n rounds) t t no_finish no_failure refl
    ∙ idle-step i n rounds t no_finish no_failure

-- The lookup of the id takes the request itself.
finds :
    (i : ℕ) (t : Requests) (b : ℕ → List Addr) (entered : Entered i t b)
    → IsUnique i t b
    → lookup_request_hashtable (t.id i) (with_heap t entered.heap)
      ≡ take_found i (with_heap t entered.heap)
unfolding same_addr
finds i t b entered unique =
    elim (lookup_request_hashtable-Answer (t.id i) (with_heap t entered.heap) (with_request i t b)
      (entered.table)) [
        | inr (none_has, _) ↦
            let no = none_has i (is_inside i t b) in let yes = ==_refl (t.id i) in absurd cc
        | inl (j, inside, at_id, found) ↦ elim (Bool-cases (j == i)) [
          | inl e ↦
              let ji : j ≡ i = ground arith in
              found ∙ ap (λ (n : ℕ). take_found n (with_heap t entered.heap)) ji
          | inr g ↦
              let same : t.id j ≡ t.id i = at_id in
              let inside' =
                rw (==_refl (row_of i t), contains-end (element j) (element i) (b (row_of i t)), g)
                  at inside in
              elim (Bool-cases (contains (element j) (b (row_of i t)))) [
                | inl c ↦
                    let other : (t.id j == t.id i) ≡ false = unique j c in absurd (ground arith)
                | inr c ↦ let no = rw c at inside' in absurd cc
              ]
        ]
      ]

-- The requests behind an answer to one of them, that was taken out of the lists.
abbrev answered : ℕ → Requests → Heap → Requests
answered i t heap =
    let found : Requests = record (write_status i mark (with_heap t heap)) { held = some i } in
    record (write_status i received found) { held = none }

replied-step :
    (i : ℕ) (t : Requests) (b : ℕ → List Addr) (taken : Taken t b i)
    → lookup_request_hashtable (t.id i) t ≡ take_found i t
    → receive_all (answer (t.id i) ∷ complete ∷ []) t ≡ done (answered i t taken.heap)
unfolding receive_all receive osns.Requests.Loop.signal_held signal_sftp_received_id
replied-step i t b taken found = rw (answer-found (t.id i) i t b taken found) refl

answered-finish :
    (i : ℕ) (t : Requests) (heap : Heap) → has_bit finish ((answered i t heap).status i) ≡ true
unfolding write_status
answered-finish i t heap = rw (==_refl i) (received-finish (t.status i))

-- An answer ends the wait. The table has room, the request is in no row, no request in its row has its id,
-- and its status says neither that it has an answer nor that it failed. If nothing comes between, and the
-- receiving thread gets the answer with the id and signals that it is complete, then the call returns 1,
-- after any number of signals for nothing and whatever would come later; and the table is in order, without
-- the request.
pub wait_sftp_response-answered :
    (i n : ℕ) (later : List Round) (t : Requests) (b : ℕ → List Addr)
    → IsRows t b
    → HasRoom b
    → IsAbsent i b
    → IsUnique i t b
    → IsOpen (t.status i)
    → (t' : Requests) × (wait_sftp_response i
          (idle n (quiet (answer (t.id i) ∷ complete ∷ []) ∷ later))
          t
        ≡ done (result true, t'))
      × (b' : ℕ → List Addr) × IsRows t' b'
      × IsAbsent i b'
unfolding write_status
wait_sftp_response-answered i n later t b table room absent unique
      (no_answer, no_finish, no_failure) =
    let entered = wait-Entered i t b table room absent in
    let t1 = with_heap t entered.heap in
    let events = answer (t.id i) ∷ complete ∷ [] in
    let taken =
      take-Taken t1 (with_request i t b) i (entered.table) (with_request-IsSmall i t b room)
        (is_inside i t b) in
    let t2 = answered i t1 (taken.heap) in
    let run = replied-step i t1 (with_request i t b) taken (finds i t b entered unique) in
    (
      t2,
      entered.run (idle n (quiet events ∷ later))
          ∙ idle-step i n (quiet events ∷ later) t1 no_finish no_failure
          ∙ quiet-step i events later t1 t2 no_finish no_failure run
          ∙ finished i later t2 (answered-finish i t1 (taken.heap)),
      taken.rows,
      taken.table,
      taken.absent,
    )
