-- ===== src/SimpleList/Tests.antt =====
-- The theorems on lists at concrete stores.
use osns.Prelude.{◌≡◌, refl, arith, none, some, [], ◌∷◌}
use osns.SshString.{done}
use osns.SimpleList.{
  Addr, element, head, tail, Heap, empty_header_ops, standalone_element_ops, link_between,
  same_addr,
}
use osns.SimpleList.Users.{fresh_header, add_list_element_last}
use osns.SimpleList.Users.{remove_list_element}
use osns.SimpleList.Users.{search_list_element_forw}
use osns.SimpleList.Lists.{IsList, fresh-IsList}
use osns.SimpleList.Grow.{grow_ops, grow-IsList}
use osns.SimpleList.Add.{add_list_element_last-IsList}
use osns.SimpleList.Take.{remove_list_element-IsList}
use osns.SimpleList.Walk.{find, search_list_element_forw-find}

abbrev blank : Heap
blank = record {
  h = λ a. none;
  n = λ a. none;
  p = λ a. none;
  ops = λ a. standalone_element_ops;
  headers = λ k. record { flags = 0; count = 0; ops = empty_header_ops };
}

abbrev a1 : Addr
a1 = element 1

abbrev a2 : Addr
a2 = element 2

abbrev a3 : Addr
a3 = element 3

abbrev empty : Heap
empty = fresh_header 0 blank

-- The stores with one element and with two.
abbrev one : Heap
one = grow_ops 0 0 (link_between 0 (head 0) a1 (tail 0) empty)

abbrev two : Heap
two = grow_ops 1 0 (link_between 0 a1 a2 (tail 0) one)

one-IsList : IsList one 0 (a1 ∷ [])
unfolding same_addr
one-IsList =
    grow-IsList empty 0 [] [] [] (head 0) a1 (tail 0) [] (fresh-IsList blank 0)
      (record { front_eq = refl; back_eq = refl }) (refl, (refl, tt)) (omega arith)

two-IsList : IsList two 0 (a1 ∷ a2 ∷ [])
unfolding same_addr
two-IsList =
    grow-IsList one 0 (a1 ∷ []) [] (head 0 ∷ []) a1 a2 (tail 0) [] one-IsList
      (record { front_eq = refl; back_eq = refl }) (refl, (refl, (refl, tt))) (omega arith)

add_list_element_last-IsList_example :
    (heap' : Heap) × (add_list_element_last 0 a3 two ≡ some heap')
    × IsList heap' 0 (a1 ∷ a2 ∷ a3 ∷ [])
unfolding same_addr
add_list_element_last-IsList_example =
    add_list_element_last-IsList two 0 (a1 ∷ a2 ∷ []) a3 two-IsList
      (refl, (refl, (refl, (refl, tt)))) (omega arith)

remove_list_element-IsList_example :
    (heap' : Heap) × (remove_list_element (some a1) two ≡ some heap')
    × IsList heap' 0 (a2 ∷ [])
    × (heap'.h a1 ≡ none)
    × (heap'.ops a1 ≡ standalone_element_ops)
remove_list_element-IsList_example =
    remove_list_element-IsList two 0 [] (a2 ∷ []) a1 two-IsList (omega arith)

search_list_element_forw-find_example :
    search_list_element_forw 0 (same_addr a2) two ≡ done (some a2)
unfolding find same_addr
search_list_element_forw-find_example =
    search_list_element_forw-find (same_addr a2) two 0 (a1 ∷ a2 ∷ []) two-IsList
