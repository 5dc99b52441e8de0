-- ===== src/SimpleHash/Create.antt =====
-- A new table.
use osns.Prelude.{
  ℕ, zero, suc, ◌+◌, ◌≤◌, ◌<◌, ◌≡◌, refl, subst, arith, true, false, Bool-cases, inl, inr, none,
  some, [], ◌==◌, bit_and, lt→ltb,
}
use osns.SimpleList.{Addr, head, tail, element, same_addr, Heap}
use osns.SimpleList.Users.{init_list_header, fresh_header, flag_init, type_empty}
use osns.SimpleList.Lists.{IsList, fresh-IsList}
use osns.SimpleList.Frame.{Same}
use osns.SimpleList.Others.{Same-IsList}
use osns.SimpleHash.{Group, init_headers, initialize_group}
use osns.SimpleHash.Table.{IsTable}

-- The header is not marked as initialised.
abbrev pub IsUnmarked : Heap → ℕ → Type 0
IsUnmarked heap k = (bit_and (heap.headers k).flags flag_init == 0) ≡ true

fresh-Same :
    (heap : Heap) (k : ℕ) (c : Addr)
    → same_addr (head k) c ≡ false
    → same_addr (tail k) c ≡ false
    → Same heap (fresh_header k heap) c
unfolding fresh_header
fresh-Same heap k c hc tc =
    (rw (hc, tc) refl, rw (hc, tc) refl, (rw (hc, tc) refl, rw (hc, tc) refl))

fresh-headers :
    (heap : Heap) (k j : ℕ) → (k == j) ≡ false → (fresh_header k heap).headers j ≡ heap.headers j
unfolding fresh_header
fresh-headers heap k j kj = rw kj refl

fresh_other :
    (heap : Heap) (k j : ℕ)
    → (k == j) ≡ false
    → IsList heap j []
    → IsList (fresh_header k heap) j []
unfolding same_addr
fresh_other heap k j kj =
    Same-IsList heap (fresh_header k heap) j []
      (fresh-Same heap k (head j) kj refl, (fresh-Same heap k (tail j) refl kj, tt))
      (fresh-headers heap k j kj)

init_unmarked :
    (heap : Heap) (k : ℕ)
    → IsUnmarked heap k
    → init_list_header k type_empty none heap ≡ some (fresh_header k heap)
unfolding init_list_header osns.SimpleList.Users.start_header
init_unmarked heap k h = rw h refl

-- The store with `n` new headers, from `k` on.
unfoldable pub fresh_headers : ℕ → ℕ → Heap → Heap
fresh_headers zero k heap = heap
fresh_headers (suc n) k heap = fresh_headers n (k + 1) (fresh_header k heap)

fresh_header-IsUnmarked :
    (n k : ℕ) (heap : Heap)
    → ((i : ℕ) → k ≤ i → i < k + suc n → IsUnmarked heap i)
    → (i : ℕ) → k + 1 ≤ i
    → i < k + 1 + n
    → IsUnmarked (fresh_header k heap) i
fresh_header-IsUnmarked n k heap unmarked i low high =
    let ki : (k == i) ≡ false = ground arith in
    rw (fresh-headers heap k i ki) (unmarked i (omega arith) (omega arith))

pub init_headers-fresh :
    (n k : ℕ) (heap : Heap)
    → ((i : ℕ) → k ≤ i → i < k + n → IsUnmarked heap i)
    → init_headers n k heap ≡ some (fresh_headers n k heap)
unfolding init_headers fresh_headers
init_headers-fresh zero k heap unmarked = refl
init_headers-fresh (suc n) k heap unmarked =
    let rest =
      init_headers-fresh n (k + 1) (fresh_header k heap)
        (fresh_header-IsUnmarked n k heap unmarked) in
    rw (init_unmarked heap k (unmarked k (omega arith) (omega arith))) rest

-- The empty lists of headers in front stay.
fresh_headers-others :
    (n k : ℕ) (heap : Heap) (i : ℕ)
    → i < k
    → IsList heap i []
    → IsList (fresh_headers n k heap) i []
unfolding fresh_headers
fresh_headers-others zero k heap i lt list = list
fresh_headers-others (suc n) k heap i lt list =
    fresh_headers-others n (k + 1) (fresh_header k heap) i (omega arith)
      (fresh_other heap k i (ground arith) list)

-- Each new header has the empty list.
pub fresh_headers-IsList :
    (n k : ℕ) (heap : Heap) (i : ℕ) → k ≤ i → i < k + n → IsList (fresh_headers n k heap) i []
unfolding fresh_headers
fresh_headers-IsList zero k heap i low high = absurd (omega arith)
fresh_headers-IsList (suc n) k heap i low high = elim (Bool-cases (k == i)) [
  | inl t ↦
      let e : k ≡ i = ground arith in
      fresh_headers-others n (k + 1) (fresh_header k heap) i (omega arith)
        (subst (λ (j : ℕ). IsList (fresh_header k heap) j []) e (fresh-IsList heap k))
  | inr f ↦ fresh_headers-IsList n (k + 1) (fresh_header k heap) i (ground arith) (omega arith)
]

abbrev pub new_group : ℕ → ℕ → Group → Group
new_group len base g = record g {
  len = len;
  hash = some base;
  heap = fresh_headers len base g.heap;
}

pub new_group-IsTable :
    (hashfunction : ℕ → ℕ) (len base : ℕ) (g : Group)
    → 0 < len
    → IsTable hashfunction (new_group len base g) base (λ _. [])
new_group-IsTable h len base g pos = record {
  hash_eq = refl;
  some_buckets = pos;
  lists = λ i lt. fresh_headers-IsList len base (g.heap) (base + i) (omega arith) (omega arith);
  elements = λ i lt. tt;
  placed = λ i lt. tt;
}

-- A group of one bucket at least, whose headers `malloc` has returned with no mark of being initialised,
-- becomes a table of empty buckets, and the result is that of success.
pub initialize_group-IsTable :
    (hashfunction : ℕ → ℕ) (len base : ℕ) (g : Group)
    → 0 < len
    → ((i : ℕ) → base ≤ i → i < base + len → IsUnmarked g.heap i)
    → (initialize_group len (some base) g ≡ some (true, 0, new_group len base g))
      × IsTable hashfunction (new_group len base g) base (λ _. [])
unfolding initialize_group
initialize_group-IsTable h len base g pos unmarked =
    let run = init_headers-fresh len base (g.heap) unmarked in
    (rw (lt→ltb 0 len pos, run) refl, new_group-IsTable h len base g pos)

marked_loop :
    (n k : ℕ) (heap : Heap)
    → ((i : ℕ) → k ≤ i → i < k + n → (bit_and (heap.headers i).flags flag_init == 0) ≡ false)
    → init_headers n k heap ≡ some heap
unfolding init_headers init_list_header
marked_loop zero k heap marked = refl
marked_loop (suc n) k heap marked =
    rw (marked k (omega arith) (omega arith))
      (marked_loop n (k + 1) heap (λ i low high. marked i (omega arith) (omega arith)))

-- Where the memory of the headers happens to have the mark, no header is initialised, and the result is
-- that of success.
initialize_group-marked :
    (len base : ℕ) (g : Group)
    → 0 < len
    → ((i : ℕ)
        → base ≤ i
        → i < base + len
        → (bit_and (g.heap.headers i).flags flag_init == 0) ≡ false)
    → initialize_group len (some base) g ≡ some (true, 0, record g { len = len; hash = some base })
unfolding initialize_group
initialize_group-marked len base g pos marked =
    rw (lt→ltb 0 len pos, marked_loop len base (g.heap) marked) refl
