-- ===== src/SimpleList/Users.antt =====
-- The functions of src/lib/list/simple-list.c for the users of lists.
use osns.Prelude.{
  ℕ, zero, suc, ◌+◌, Bool, false, Option, none, some, ◌>>=◌, ◌==◌, if◌then◌else◌, bit_and, bit_or,
}
use osns.SshString.{Run, fault, out_of_fuel, done}
use osns.SimpleList.{
  Addr, head, tail, same_addr, HeaderOps, empty_header_ops, one_list_ops, default_header_ops,
}
use osns.SimpleList.{
  ElementOps, system_head_element_ops, system_tail_element_ops, standalone_element_ops,
  default_element_ops,
}
use osns.SimpleList.{Heap, set_n, set_p, set_owner, write_header, set_header_ops, init_list_element}
use osns.SimpleList.{
  delete_element_default, delete_element_one, insert_element_after_default,
  insert_element_before_default,
}
use osns.SimpleList.{
  insert_common_empty_header, insert_after_element_one, insert_before_element_one,
}
use osns.SimpleList.Steps.{step_next, step_prev}

-- `(* h->ops->insert_after)(h, a, e)`, and the other calls through the table of the header.
unfoldable pub insert_after : HeaderOps → ℕ → Addr → Addr → Heap → Option Heap
insert_after empty_header_ops k a e heap = insert_common_empty_header k a e heap
insert_after one_list_ops k a e heap = insert_after_element_one k a e heap
insert_after default_header_ops k a e heap = insert_element_after_default k a e heap

unfoldable pub insert_before : HeaderOps → ℕ → Addr → Addr → Heap → Option Heap
insert_before empty_header_ops k b e heap = insert_common_empty_header k b e heap
insert_before one_list_ops k b e heap = insert_before_element_one k b e heap
insert_before default_header_ops k b e heap = insert_element_before_default k b e heap

unfoldable pub delete : HeaderOps → ℕ → Addr → Heap → Option Heap
delete empty_header_ops k e heap = some heap
delete one_list_ops k e heap = delete_element_one k e heap
delete default_header_ops k e heap = delete_element_default k e heap

unfoldable pub get_head : HeaderOps → ℕ → Heap → Option Addr
get_head empty_header_ops k heap = none
get_head one_list_ops k heap = (heap.n (head k))
get_head default_header_ops k heap = (heap.n (head k))

unfoldable pub get_tail : HeaderOps → ℕ → Heap → Option Addr
get_tail empty_header_ops k heap = none
get_tail one_list_ops k heap = (heap.p (tail k))
get_tail default_header_ops k heap = (heap.p (tail k))

unfoldable pub add_list_element_last : ℕ → Addr → Heap → Option Heap
unfolding insert_before
add_list_element_last k e heap =
    let heap' = init_list_element e (some k) heap in
    insert_before ((heap'.headers k).ops) k (tail k) e heap'

unfoldable pub add_list_element_first : ℕ → Addr → Heap → Option Heap
unfolding insert_after
add_list_element_first k e heap =
    let heap' = init_list_element e (some k) heap in
    insert_after ((heap'.headers k).ops) k (head k) e heap'

unfoldable pub add_list_element_after : ℕ → Addr → Addr → Heap → Option Heap
unfolding insert_after
add_list_element_after k p e heap =
    let heap' = init_list_element e (some k) heap in
    insert_after ((heap'.headers k).ops) k p e heap'

unfoldable pub add_list_element_before : ℕ → Addr → Addr → Heap → Option Heap
unfolding insert_before
add_list_element_before k n e heap =
    let heap' = init_list_element e (some k) heap in
    insert_before ((heap'.headers k).ops) k n e heap'

-- `_rm_default`
unfoldable pub rm_default : Option ℕ → Addr → Heap → Option Heap
unfolding delete
rm_default none e heap = some heap
rm_default (some k) e heap = delete ((heap.headers k).ops) k e heap

unfoldable pub rm_element : ElementOps → Addr → Heap → Option Heap
unfolding rm_default
rm_element system_head_element_ops e heap = some heap
rm_element system_tail_element_ops e heap = some heap
rm_element standalone_element_ops e heap = some heap
rm_element default_element_ops e heap = rm_default (heap.h e) e heap

unfoldable pub remove_list_element : Option Addr → Heap → Option Heap
unfolding rm_element
remove_list_element none heap = some heap
remove_list_element (some e) heap = rm_element (heap.ops e) e heap

unfoldable pub get_list_head : ℕ → Heap → Option Addr
unfolding get_head
get_list_head k heap = get_head ((heap.headers k).ops) k heap

unfoldable pub get_list_tail : ℕ → Heap → Option Addr
unfolding get_tail
get_list_tail k heap = get_tail ((heap.headers k).ops) k heap

unfoldable pub remove_list_head : ℕ → Heap → Option (Option Addr × Heap)
unfolding remove_list_element get_list_head
remove_list_head k heap =
    let e = get_list_head k heap in do heap' ← remove_list_element e heap; some (e, heap')

unfoldable pub remove_list_tail : ℕ → Heap → Option (Option Addr × Heap)
unfolding remove_list_element get_list_tail
remove_list_tail k heap =
    let e = get_list_tail k heap in do heap' ← remove_list_element e heap; some (e, heap')

-- The result of `search_list_element_forw` from `e` on; `condition` says where its result is 0.
unfoldable pub search_forw : ℕ → (Addr → Bool) → Option Addr → Heap → Run (Option Addr)
search_forw zero condition e heap = out_of_fuel
search_forw (suc fuel) condition none heap = done none
search_forw (suc fuel) condition (some e) heap =
    let rest : Run (Option Addr) = elim (step_next e heap) [
      | none ↦ fault
      | some n ↦ search_forw fuel condition n heap
    ] in
    if condition e then done (some e) else rest

unfoldable pub search_back : ℕ → (Addr → Bool) → Option Addr → Heap → Run (Option Addr)
search_back zero condition e heap = out_of_fuel
search_back (suc fuel) condition none heap = done none
search_back (suc fuel) condition (some e) heap =
    let rest : Run (Option Addr) = elim (step_prev e heap) [
      | none ↦ fault
      | some p ↦ search_back fuel condition p heap
    ] in
    if condition e then done (some e) else rest

-- A round passes an element.
unfoldable pub search_list_element_forw : ℕ → (Addr → Bool) → Heap → Run (Option Addr)
search_list_element_forw k condition heap =
    search_forw ((heap.headers k).count + 1) condition (get_list_head k heap) heap

unfoldable pub search_list_element_back : ℕ → (Addr → Bool) → Heap → Run (Option Addr)
search_list_element_back k condition heap =
    search_back ((heap.headers k).count + 1) condition (get_list_tail k heap) heap

abbrev pub type_empty : ℕ
type_empty = 1

abbrev pub type_default : ℕ
type_default = 2

abbrev pub type_one : ℕ
type_one = 3

abbrev pub flag_init : ℕ
flag_init = 2

-- The head, the tail and the fields of the header.
unfoldable pub fresh_header : ℕ → Heap → Heap
unfolding set_n set_p set_owner write_header
fresh_header k heap =
    let head' =
      set_owner (head k) (some k) system_head_element_ops
        (set_p (head k) (some (tail k)) (set_n (head k) (some (tail k)) heap)) in
    let tail' =
      set_owner (tail k) (some k) system_tail_element_ops
        (set_n (tail k) (some (head k)) (set_p (tail k) (some (head k)) head')) in
    write_header k
      (record {
        flags = bit_or (heap.headers k).flags flag_init;
        count = 0;
        ops = empty_header_ops;
      })
      tail'

-- The part of `init_list_header` that depends on the type.
unfoldable pub start_header : ℕ → ℕ → Option Addr → Heap → Option Heap
start_header k type none heap =
    if type == type_default then some (set_header_ops k default_header_ops heap) else some heap
start_header k type (some e) heap =
    if type == type_one
    then add_list_element_first k e heap
    else if type == type_default
    then some (set_header_ops k default_header_ops heap)
    else some heap

unfoldable pub init_list_header : ℕ → ℕ → Option Addr → Heap → Option Heap
unfolding fresh_header start_header
init_list_header k type e heap =
    if bit_and (heap.headers k).flags flag_init == 0
    then start_header k type e (fresh_header k heap)
    else some heap

unfoldable pub is_addr : Option Addr → Addr → Bool
is_addr none a = false
is_addr (some b) a = same_addr b a

-- `true` is the result 0. Without a header the source takes the address of a field of NULL.
unfoldable pub list_element_is_first : Addr → Heap → Option Bool
unfolding is_addr
list_element_is_first e heap = do k ← (heap.h e); some (is_addr (heap.p e) (head k))

-- The source compares the element with the tail, and not the one behind it.
unfoldable pub list_element_is_last : Addr → Heap → Option Bool
list_element_is_last e heap = do k ← (heap.h e); some (same_addr e (tail k))
