-- ===== src/Requests/Answered.antt =====
-- A whole wait: that the table is left, and that an answer ends it.
use osns.Prelude.{
  ℕ, ◌+◌, ◌%◌, ◌^◌, ◌<◌, ◌≡◌, refl, ap, sym, subst, arith, true, false, Bool-cases, inl, inr, some,
  List, [], ◌∷◌, ◌++◌, length, length-append, ◌==◌, ==_refl,
}
use osns.SimpleList.{Addr, element, same_addr, Heap, init_list_element}
use osns.SimpleList.Users.{add_list_element_last}
use osns.SimpleList.Links.{Apart}
use osns.SimpleHash.Change.{update, init-IsTable}
use osns.SimpleHash.Add.{add_last-IsTable}
use osns.Channels.Members.{contains, contains-Apart, contains-end}
use osns.Channels.Invariant.{as_group, number}
use osns.Requests.{Requests, hashsize, with_heap, add_request_hashtable}
use osns.Requests.Loop.{Round, wait_loop, wait_sftp_response}
use osns.Requests.Table.{as_channels, IsRows}
use osns.Requests.Events.{IsAbsent, IsSmall, IsPending, is_held}
use osns.Requests.Wait.{Ends, IsOpen, wait_loop-Ends}

-- The row of a request.
abbrev pub row_of : ℕ → Requests → ℕ
row_of i t = t.id i % hashsize

-- The rows have room for one request more.
abbrev pub HasRoom : (ℕ → List Addr) → Type 0
HasRoom b = (m : ℕ) → m < hashsize → length (b m) + 1 < 2 ^ 64

abbrev pub with_request : ℕ → Requests → (ℕ → List Addr) → ℕ → List Addr
with_request i t b = update b (row_of i t) (b (row_of i t) ++ (element i ∷ []))

pub with_request-IsSmall :
    (i : ℕ) (t : Requests) (b : ℕ → List Addr) → HasRoom b → IsSmall (with_request i t b)
with_request-IsSmall i t b room m lt = elim (Bool-cases (row_of i t == m)) [
  | inr f ↦ let bound = room m lt in rw f (omega (arith, bound))
  | inl h ↦
      let sm : row_of i t ≡ m = ground arith in
      let here = ap (λ (k : ℕ). length (b k)) sm in
      let bound = room m lt in
      rw h (omega (arith, here, bound, length-append (b (row_of i t)) (element i ∷ [])))
]

-- The table in which a request waits, and the call that puts it there.
pub record Entered (i : ℕ) (t : Requests) (b : ℕ → List Addr) : Type 0 where
  pub heap : Heap
  pub run :
      (rounds : List Round) → wait_sftp_response i rounds t ≡ wait_loop i rounds (with_heap t heap)
  pub table : IsRows (with_heap t heap) (with_request i t b)

wait-step :
    (i : ℕ) (t : Requests) (heap : Heap) (rounds : List Round)
    → add_list_element_last
        (row_of i t)
        (element i)
        (init_list_element (element i) (some (row_of i t)) t.heap)
      ≡ some heap
    → wait_sftp_response i rounds t ≡ wait_loop i rounds (with_heap t heap)
unfolding wait_sftp_response add_request_hashtable
wait-step i t heap rounds run = rw run refl

pub wait-Entered :
    (i : ℕ) (t : Requests) (b : ℕ → List Addr)
    → IsRows t b
    → HasRoom b
    → IsAbsent i b
    → Entered i t b
unfolding osns.SimpleHash.stored
wait-Entered i t b table room absent =
    let g = as_group (as_channels t) in
    let s = row_of i t in
    let s_lt : s < hashsize = omega arith in
    let apart : (j : ℕ) → j < hashsize → Apart (element i) (b j) =
      λ j lt. contains-Apart (element i) (b j) (absent j lt) in
    let start = init_list_element (element i) (some s) t.heap in
    let table1 = init-IsTable number g 0 b table (some s) (element i) (i, refl) apart in
    let (heap, run, grown) =
      add_last-IsTable number (as_group (as_channels (with_heap t start))) 0 b (element i) (t.id i)
        table1 (i, refl) refl apart (room s s_lt) in
    let at0 : 0 + s ≡ s = omega arith in
    let run' = subst (λ (k : ℕ). add_list_element_last k (element i) start ≡ some heap) at0 run in
    record { heap = heap; run = λ rounds. wait-step i t heap rounds run'; table = grown }

pub is_inside :
    (i : ℕ) (t : Requests) (b : ℕ → List Addr)
    → contains (element i) (with_request i t b (row_of i t)) ≡ true
unfolding same_addr
is_inside i t b =
    rw (==_refl (row_of i t), contains-end (element i) (element i) (b (row_of i t)), ==_refl i)
      (elim (Bool-cases (contains (element i) (b (row_of i t)))) [
        | inl e ↦ rw e refl
        | inr f ↦ rw f refl
      ])

pub Entered-IsPending :
    (i : ℕ) (t : Requests) (b : ℕ → List Addr) (entered : Entered i t b)
    → HasRoom b
    → is_held i t.held ≡ false
    → IsPending i (t.status i) (with_heap t entered.heap)
Entered-IsPending i t b entered room free = record {
  rows = with_request i t b;
  table = entered.table;
  small = with_request-IsSmall i t b room;
  place = inl (is_inside i t b, refl, free);
}

-- A wait leaves nothing behind. The table has room, the request is in no row and not held by the receiving
-- thread, and its status says neither that it has an answer nor that it failed. Then, whatever the callbacks
-- say, however the waits for the signal end, and whatever the receiving thread does meanwhile with this
-- request and others, the call makes no access outside of the lists; and when it has returned, with 0 or
-- with 1, the table is in order and the request is in no row of it.
pub wait_sftp_response-Ends :
    (i : ℕ) (rounds : List Round) (t : Requests) (b : ℕ → List Addr)
    → IsRows t b
    → HasRoom b
    → IsAbsent i b
    → is_held i t.held ≡ false
    → IsOpen (t.status i)
    → Ends i (wait_sftp_response i rounds t)
wait_sftp_response-Ends i rounds t b table room absent free unset =
    let entered = wait-Entered i t b table room absent in
    subst (Ends i) (sym (entered.run rounds)) (
      wait_loop-Ends i (t.status i) rounds (with_heap t entered.heap) unset
        (Entered-IsPending i t b entered room free))
