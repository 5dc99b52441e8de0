-- ===== src/SimpleList/Steps.antt =====
-- The steps from an element to its neighbours: src/lib/list/simple-list.c.
use osns.Prelude.{ℕ, Option, none, some, ◌>>=◌, ltb, if◌then◌else◌}
use osns.SimpleList.{
  Addr, Heap, ElementOps, system_head_element_ops, system_tail_element_ops, standalone_element_ops,
  default_element_ops,
}

-- `(* e->ops->get_element)(e)`: NULL for the head and the tail.
unfoldable pub get_element : ElementOps → Addr → Option Addr
get_element system_head_element_ops e = none
get_element system_tail_element_ops e = none
get_element standalone_element_ops e = some e
get_element default_element_ops e = some e

-- `_get_next_element` and `_get_prev_element`.
unfoldable pub step_next : Addr → Heap → Option (Option Addr)
unfolding get_element
step_next e heap = do n ← (heap.n e); some (get_element (heap.ops n) n)

unfoldable pub step_prev : Addr → Heap → Option (Option Addr)
unfolding get_element
step_prev e heap = do p ← (heap.p e); some (get_element (heap.ops p) p)

-- `_get_next_element_head` and `_get_prev_element_tail`, for the `h` of the element.
unfoldable pub next_of_head : Option ℕ → Addr → Heap → Option (Option Addr)
unfolding step_next
next_of_head none e heap = some none
next_of_head (some k) e heap = if ltb 0 (heap.headers k).count then step_next e heap else some none

unfoldable pub prev_of_tail : Option ℕ → Addr → Heap → Option (Option Addr)
unfolding step_prev
prev_of_tail none e heap = some none
prev_of_tail (some k) e heap = if ltb 0 (heap.headers k).count then step_prev e heap else some none

unfoldable pub get_next : ElementOps → Addr → Heap → Option (Option Addr)
unfolding next_of_head step_next
get_next system_head_element_ops e heap = next_of_head (heap.h e) e heap
get_next system_tail_element_ops e heap = some none
get_next standalone_element_ops e heap = some none
get_next default_element_ops e heap = step_next e heap

unfoldable pub get_prev : ElementOps → Addr → Heap → Option (Option Addr)
unfolding prev_of_tail step_prev
get_prev system_head_element_ops e heap = some none
get_prev system_tail_element_ops e heap = prev_of_tail (heap.h e) e heap
get_prev standalone_element_ops e heap = some none
get_prev default_element_ops e heap = step_prev e heap

unfoldable pub get_next_element : Addr → Heap → Option (Option Addr)
unfolding get_next
get_next_element e heap = get_next (heap.ops e) e heap

unfoldable pub get_prev_element : Addr → Heap → Option (Option Addr)
unfolding get_prev
get_prev_element e heap = get_prev (heap.ops e) e heap
