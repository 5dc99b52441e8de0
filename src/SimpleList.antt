-- ===== src/SimpleList.antt =====
-- Doubly linked lists with a header: src/lib/list/simple-list.c.
-- The store maps the address of an element to its fields, so that elements that are shared by pointers
-- are changed for all who point at them. Pointers to functions are names of the functions' tables, and
-- the calls through them are by clauses on the name. Every header and element has such a table, so that the
-- tests of `ops` for NULL in _rm_default and remove_list_element are left out. NULL that is followed is `none`.
-- The locks in the header and the elements, and `cb_lock` and `ptr` of the header, are left out: the
-- functions here only initialise them, or hand the locks on to src/lib/list/lock.c.
pub mod Steps
pub mod Users
mod Tests
pub mod Links
pub mod Insert
pub mod Remove
pub mod Lists
pub mod Grow
pub mod Shrink
pub mod Frame
pub mod Others
pub mod Pair
pub mod Add
pub mod Take
pub mod Walk
pub mod TakeLast
use osns.Prelude.{
  ℕ, ◌+◌, ◌-◌, ◌%◌, ◌^◌, Bool, true, false, Option, none, some, ◌>>=◌, ◌==◌, if◌then◌else◌,
}

-- `&h->head` and `&h->tail` of a header, or an element of its own.
pub data Addr : Type 0 where
  head : ℕ → Addr
  tail : ℕ → Addr
  element : ℕ → Addr

unfoldable pub same_addr : Addr → Addr → Bool
same_addr (head h) (head k) = h == k
same_addr (head h) (tail k) = false
same_addr (head h) (element k) = false
same_addr (tail h) (head k) = false
same_addr (tail h) (tail k) = h == k
same_addr (tail h) (element k) = false
same_addr (element h) (head k) = false
same_addr (element h) (tail k) = false
same_addr (element h) (element k) = h == k

pub data ElementOps : Type 0 where
  system_head_element_ops system_tail_element_ops : ElementOps
  standalone_element_ops default_element_ops : ElementOps

pub data HeaderOps : Type 0 where
  empty_header_ops one_list_ops default_header_ops : HeaderOps

pub record Header : Type 0 where
  pub flags : ℕ
  pub count : ℕ
  pub ops : HeaderOps

-- The fields of the elements, each as a map from their addresses, and the headers.
pub record Heap : Type 0 where
  pub h : Addr → Option ℕ
  pub n : Addr → Option Addr
  pub p : Addr → Option Addr
  pub ops : Addr → ElementOps
  pub headers : ℕ → Header

unfoldable pub at_addr : {A : Type 0} → Addr → A → (Addr → A) → Addr → A
at_addr a v f b = if same_addr a b then v else f b

-- `a->n = v` and `a->p = v`
unfoldable pub set_n : Addr → Option Addr → Heap → Heap
unfolding at_addr
set_n a v heap = record heap { n = at_addr a v heap.n }

unfoldable pub set_p : Addr → Option Addr → Heap → Heap
unfolding at_addr
set_p a v heap = record heap { p = at_addr a v heap.p }

-- `a->h = h` with `a->ops = ops`
unfoldable pub set_owner : Addr → Option ℕ → ElementOps → Heap → Heap
unfolding at_addr
set_owner a h ops heap = record heap { h = at_addr a h heap.h; ops = at_addr a ops heap.ops }

unfoldable pub write_header : ℕ → Header → Heap → Heap
write_header k h heap = record heap { headers = λ j. if k == j then h else heap.headers j }

unfoldable pub set_header_ops : ℕ → HeaderOps → Heap → Heap
unfolding write_header
set_header_ops k ops heap = write_header k (record (heap.headers k) { ops = ops }) heap

unfoldable pub set_count : ℕ → ℕ → Heap → Heap
unfolding write_header
set_count k count heap = write_header k (record (heap.headers k) { count = count }) heap

unfoldable pub init_list_element : Addr → Option ℕ → Heap → Heap
unfolding set_n set_p set_owner
init_list_element e none heap =
    set_owner e none standalone_element_ops (set_p e none (set_n e none heap))
init_list_element e (some k) heap =
    set_owner e (some k) default_element_ops (set_p e none (set_n e none heap))

-- `n->p=p` and `p->n=n`, and `e` stands alone.
unfoldable pub unlink : Addr → Addr → Addr → Heap → Heap
unfolding set_n set_p init_list_element
unlink p e n heap = init_list_element e none (set_n p (some n) (set_p n (some p) heap))

unfoldable pub delete_element_common : Addr → Heap → Option Heap
unfolding unlink
delete_element_common e heap = do n ← heap.n e; p ← heap.p e; some (unlink p e n heap)

-- `h->count--` on 64 bits
unfoldable pub count_down : ℕ → Heap → Heap
unfolding set_count
count_down k heap = set_count k (((heap.headers k).count + 2 ^ 64 - 1) % 2 ^ 64) heap

unfoldable pub count_up : ℕ → Heap → Heap
unfolding set_count
count_up k heap = set_count k (((heap.headers k).count + 1) % 2 ^ 64) heap

-- What `delete_element_default` does to the table of the header.
unfoldable pub adapt_header_ops : ℕ → Heap → Heap
unfolding set_header_ops
adapt_header_ops k heap =
    if (heap.headers k).count == 1
    then set_header_ops k one_list_ops heap
    else if (heap.headers k).count == 0
    then set_header_ops k empty_header_ops heap
    else heap

unfoldable pub delete_element_default : ℕ → Addr → Heap → Option Heap
unfolding delete_element_common count_down adapt_header_ops
delete_element_default k e heap = do
  heap' ← delete_element_common e heap
  some (adapt_header_ops k (count_down k heap'))

-- The four pointers, once the neighbours are known.
unfoldable pub link_between : ℕ → Addr → Addr → Addr → Heap → Heap
unfolding set_n set_p count_up init_list_element
link_between k p e n heap = count_up k (
    set_n e (some n)
      (set_p e (some p) (set_n p (some e) (set_p n (some e) (init_list_element e (some k) heap)))))

unfoldable pub insert_element_after_default : ℕ → Addr → Addr → Heap → Option Heap
unfolding link_between
insert_element_after_default k p e heap = do n ← (heap.n p); some (link_between k p e n heap)

-- The source writes the same fields in another order.
unfoldable pub insert_element_before_default : ℕ → Addr → Addr → Heap → Option Heap
unfolding set_n set_p count_up init_list_element
insert_element_before_default k n e heap = do
  p ← (heap.p n)
  some (
      count_up k (
        set_p e (some p) (
          set_n e (some n)
            (set_p n (some e) (set_n p (some e) (init_list_element e (some k) heap))))))

unfoldable pub insert_common_empty_header : ℕ → Addr → Addr → Heap → Option Heap
unfolding insert_element_after_default set_header_ops
insert_common_empty_header k a e heap = do
  heap' ← insert_element_after_default k (head k) e heap
  some (set_header_ops k one_list_ops heap')

unfoldable pub delete_element_one : ℕ → Addr → Heap → Option Heap
unfolding delete_element_common count_down set_header_ops
delete_element_one k e heap = do
  heap' ← delete_element_common e heap
  some (set_header_ops k empty_header_ops (count_down k heap'))

unfoldable pub insert_after_element_one : ℕ → Addr → Addr → Heap → Option Heap
unfolding insert_element_after_default set_header_ops
insert_after_element_one k a e heap = do
  heap' ← insert_element_after_default k a e heap
  some (set_header_ops k default_header_ops heap')

unfoldable pub insert_before_element_one : ℕ → Addr → Addr → Heap → Option Heap
unfolding insert_element_before_default set_header_ops
insert_before_element_one k b e heap = do
  heap' ← insert_element_before_default k b e heap
  some (set_header_ops k default_header_ops heap')
