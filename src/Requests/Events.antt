-- ===== src/Requests/Events.antt =====
-- What the receiving thread leaves of a request that waits.
use osns.Prelude.{
  ℕ, ◌+◌, ◌%◌, ◌^◌, ◌<◌, ◌≡◌, refl, ap, sym, subst, ◌∙◌, arith, Bool, true, false, Bool-cases, inl,
  inr, ◌⊎◌, Option, none, some, List, [], ◌∷◌, ◌++◌, length, length-append, ◌==◌,
}
use osns.SshString.{done}
use osns.SimpleList.{Addr, element, same_addr, Heap, standalone_element_ops}
use osns.SimpleList.Users.{remove_list_element}
use osns.SimpleList.Take.{remove_list_element-Frame}
use osns.SimpleList.Others.{Apart-ring}
use osns.SimpleList.Lists.{IsList}
use osns.SimpleHash.Change.{update}
use osns.SimpleHash.Remove.{take-IsTable}
use osns.Channels.Members.{contains, contains-Split, contains-Apart, Apart-contains, contains-other}
use osns.Channels.Invariant.{as_group, number}
use osns.Channels.Remove.{without, contains-without}
use osns.Requests.{
  Requests, hashsize, with_heap, take_found, get_sftp_request, mark_found, write_status,
  lookup_request_hashtable, mark, received, set_bit, failure, signal_sftp_received_id,
  signal_sftp_received_id_error,
}
use osns.Requests.Loop.{Event, answer, complete, wrong, receive, receive_all, signal_held}
use osns.Requests.Table.{as_channels, IsRows, lookup_request_hashtable-Answer}

-- The request is in no row.
abbrev pub IsAbsent : ℕ → (ℕ → List Addr) → Type 0
IsAbsent i b = (m : ℕ) → m < hashsize → contains (element i) (b m) ≡ false

abbrev pub IsSmall : (ℕ → List Addr) → Type 0
IsSmall b = (m : ℕ) → m < hashsize → length (b m) < 2 ^ 64

unfoldable heap_of : Heap → Option Heap → Heap
heap_of h none = h
heap_of h (some h') = h'

-- What is left when a request is taken out of its row.
pub record Taken (t : Requests) (b : ℕ → List Addr) (j : ℕ) : Type 0 where
  pub heap : Heap
  pub rows : ℕ → List Addr
  pub run : remove_list_element (some (element j)) t.heap ≡ some heap
  pub table : IsRows (with_heap t heap) rows
  pub small : IsSmall rows
  pub absent : IsAbsent j rows
  pub alone : heap.ops (element j) ≡ standalone_element_ops
  pub others :
      (i m : ℕ) → (j == i) ≡ false → contains (element i) (rows m) ≡ contains (element i) (b m)
  pub keeps :
      (i : ℕ) → (j == i) ≡ false → IsAbsent i b → heap.ops (element i) ≡ t.heap.ops (element i)

shorter :
    (b : ℕ → List Addr) (s : ℕ) (ys zs : List Addr) (e : Addr)
    → b s ≡ ys ++ (e ∷ zs)
    → IsSmall b
    → IsSmall (update b s (ys ++ zs))
shorter b s ys zs e whole small m lt = elim (Bool-cases (s == m)) [
  | inr f ↦ rw f (small m lt)
  | inl h ↦
      let sm : s ≡ m = ground arith in
      let here = ap (λ (l : List Addr). length l) (ap (λ (k : ℕ). b k) (sym sm) ∙ whole) in
      let bound = small m lt in
      rw h (omega (arith, here, bound, length-append ys zs, length-append ys (e ∷ zs)))
]

pub take-Taken :
    (t : Requests) (b : ℕ → List Addr) (j : ℕ)
    → IsRows t b
    → IsSmall b
    → contains (element j) (b (t.id j % hashsize)) ≡ true
    → Taken t b j
unfolding heap_of same_addr
take-Taken t b j table small inside =
    let e = element j in
    let s = t.id j % hashsize in
    let s_lt : s < hashsize = omega arith in
    let at = contains-Split e (b s) inside in
    let (heap1, run1, rows1, _, _, apart) =
      take-IsTable number (as_group (as_channels t)) 0 b s (at.before) (at.behind) e table s_lt
        (at.whole_eq) (small s s_lt) in
    let list = subst (IsList (t.heap) (0 + s)) (at.whole_eq) (table.lists s s_lt) in
    let (heap2, run2, _, _, alone, frame) =
      remove_list_element-Frame (t.heap) (0 + s) (at.before) (at.behind) e list
        (subst (λ (l : List Addr). length l < 2 ^ 64) (at.whole_eq) (small s s_lt)) in
    let same : heap1 ≡ heap2 = ap (heap_of heap1) (sym run1 ∙ run2) in
    record {
      heap = heap1;
      rows = without (as_channels t) b j at;
      run = run1;
      table = rows1;
      small = shorter b s (at.before) (at.behind) e (at.whole_eq) small;
      absent = λ m lt. Apart-contains e _ (apart m lt);
      alone = ap (λ (h : Heap). h.ops e) same ∙ alone;
      others = λ i m ji. contains-without (as_channels t) b j i m at ji;
      keeps = λ i ji out.
          let ij : (i == j) ≡ false = ground arith in
          let gone = contains-Apart (element i) (at.before ++ at.behind) (
            sym (contains-other (element i) e (at.before) (at.behind) ij)
            ∙ ap (contains (element i)) (sym (at.whole_eq))
            ∙ out s s_lt) in
          let kept =
            frame.keep (element i) ji
              (Apart-ring (element i) (0 + s) (at.before ++ at.behind) (i, refl) gone) in
          ap (λ (h : Heap). h.ops (element i)) same ∙ kept.2.1;
    }

unfoldable pub is_held : ℕ → Option ℕ → Bool
is_held i none = false
is_held i (some j) = j == i

-- A request is in its row, with the status that it had, and the receiving thread does not hold it.
abbrev pub IsIn : ℕ → ℕ → Requests → (ℕ → List Addr) → Type 0
IsIn i st t b =
    (contains (element i) (b (t.id i % hashsize)) ≡ true)
    × (t.status i ≡ st)
    × (is_held i t.held ≡ false)

-- It is in no row, and its element stands alone.
abbrev pub IsOut : ℕ → Requests → (ℕ → List Addr) → Type 0
IsOut i t b = IsAbsent i b × (t.heap.ops (element i) ≡ standalone_element_ops)

-- The table while the request waits, whose status was `st`.
pub record IsPending (i st : ℕ) (t : Requests) : Type 0 where
  pub rows : ℕ → List Addr
  pub table : IsRows t rows
  pub small : IsSmall rows
  pub place : IsIn i st t rows ⊎ IsOut i t rows

-- Another request is taken, or the request itself.
taken_place :
    (i st j : ℕ) (f : ℕ → ℕ) (t : Requests) (b : ℕ → List Addr) (taken : Taken t b j)
    → IsIn i st t b ⊎ IsOut i t b
    → (let t' : Requests = record (write_status j f (with_heap t taken.heap)) { held = some j } in
        IsIn i st t' taken.rows ⊎ IsOut i t' taken.rows)
unfolding write_status is_held
taken_place i st j f t b taken place = elim (Bool-cases (j == i)) [
  | inl h ↦
      let ji : j ≡ i = ground arith in
      inr (
        λ m lt.
            subst (λ (n : ℕ). contains (element n) (taken.rows m) ≡ false) ji (taken.absent m lt),
        subst (λ (n : ℕ). taken.heap.ops (element n) ≡ standalone_element_ops) ji (taken.alone),
      )
  | inr g ↦ elim place [
    | inl (inside, same, _) ↦ inl (taken.others i (t.id i % hashsize) g ∙ inside, rw g same, g)
    | inr (out, alone) ↦ inr (λ m lt. taken.others i m g ∙ out m lt, taken.keeps i g out ∙ alone)
  ]
]

-- Signals for the request that is held.
held_place :
    (i st : ℕ) (f : ℕ → ℕ) (j : ℕ) (t : Requests) (b : ℕ → List Addr)
    → t.held ≡ some j
    → IsIn i st t b ⊎ IsOut i t b
    → (let t' : Requests = record (write_status j f t) { held = none } in
        IsIn i st t' b ⊎ IsOut i t' b)
unfolding write_status is_held
held_place i st f j t b at_held (inr out) = inr out
held_place i st f j t b at_held (inl (inside, same, free)) =
    let g : (j == i) ≡ false = rw at_held at free in inl (inside, rw g same, refl)

pub answer-found :
    (id j : ℕ) (t : Requests) (b : ℕ → List Addr) (taken : Taken t b j)
    → lookup_request_hashtable id t ≡ take_found j t
    → receive (answer id) t
      ≡ done (record (write_status j mark (with_heap t taken.heap)) { held = some j })
unfolding receive get_sftp_request mark_found take_found
answer-found id j t b taken found = rw (found, taken.run) refl

answer-none :
    (id : ℕ) (t : Requests)
    → lookup_request_hashtable id t ≡ done (none, t)
    → receive (answer id) t ≡ done (record t { held = none })
unfolding receive get_sftp_request mark_found
answer-none id t found = rw found refl

released : (i st : ℕ) (t : Requests) → IsPending i st t → IsPending i st (record t { held = none })
unfolding is_held
released i st t p = record {
  rows = p.rows;
  table = p.table;
  small = p.small;
  place = elim (p.place) [ inl (inside, same, _) ↦ inl (inside, same, refl) | inr out ↦ inr out ];
}

signal-IsPending :
    (i st : ℕ) (f : ℕ → ℕ) (held : Option ℕ) (t : Requests)
    → t.held ≡ held
    → IsPending i st t
    → IsPending i st (signal_held (λ j. write_status j f) held t)
unfolding signal_held write_status
signal-IsPending i st f none t e p = p
signal-IsPending i st f (some j) t e p = record {
  rows = p.rows;
  table = p.table;
  small = p.small;
  place = held_place i st f j t (p.rows) e (p.place);
}

pub receive-IsPending :
    (i st : ℕ) (e : Event) (t : Requests)
    → IsPending i st t
    → (t' : Requests) × (receive e t ≡ done t') × IsPending i st t'
unfolding receive signal_sftp_received_id signal_sftp_received_id_error write_status
receive-IsPending i st (answer id) t p =
    elim (lookup_request_hashtable-Answer id t (p.rows) (p.table)) [
      | inl (j, inside, at_id, found) ↦
          let here =
            subst (λ (n : ℕ). contains (element j) (p.rows (n % 64)) ≡ true) (sym at_id) inside in
          let taken = take-Taken t (p.rows) j (p.table) (p.small) here in
          (
            _,
            answer-found id j t (p.rows) taken found,
            record {
              rows = taken.rows;
              table = taken.table;
              small = taken.small;
              place = taken_place i st j mark t (p.rows) taken (p.place);
            },
          )
      | inr (_, nothing) ↦ (_, answer-none id t nothing, released i st t p)
    ]
receive-IsPending i st complete t p = (_, refl, signal-IsPending i st received (t.held) t refl p)
receive-IsPending i st wrong t p =
    (_, refl, signal-IsPending i st (λ f. set_bit failure f) (t.held) t refl p)

pub receive_all-IsPending :
    (i st : ℕ) (es : List Event) (t : Requests)
    → IsPending i st t
    → (t' : Requests) × (receive_all es t ≡ done t') × IsPending i st t'
unfolding receive_all
receive_all-IsPending i st [] t p = (t, refl, p)
receive_all-IsPending i st (e ∷ es) t p =
    let (t1, run, p1) = receive-IsPending i st e t p in
    let (t2, rest, p2) = receive_all-IsPending i st es t1 p1 in (t2, rw run rest, p2)
