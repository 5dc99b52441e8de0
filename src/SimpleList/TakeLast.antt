-- ===== src/SimpleList/TakeLast.antt =====
-- The other end of a list: `get_list_tail` and `remove_list_tail`.
use osns.Prelude.{
  ℕ, zero, suc, ◌^◌, ◌<◌, ◌≡◌, refl, subst, arith, some, List, [], ◌∷◌, ◌++◌, append_assoc,
  append-nil, length, length-append,
}
use osns.SimpleList.{Addr, head, tail, Heap}
use osns.SimpleList.Users.{get_list_tail, get_tail, remove_list_tail}
use osns.SimpleList.Links.{Links, Links-back}
use osns.SimpleList.Lists.{ops_for, IsList}
use osns.SimpleList.Take.{remove_list_element-IsList}

get_tail-some : (m k : ℕ) (heap : Heap) → get_tail (ops_for (suc m)) k heap ≡ heap.p (tail k)
unfolding get_tail ops_for
get_tail-some zero k heap = refl
get_tail-some (suc m) k heap = refl

pub get_list_tail-last :
    (heap : Heap) (k : ℕ) (ys : List Addr) (x : Addr)
    → IsList heap k (ys ++ (x ∷ []))
    → get_list_tail k heap ≡ some x
unfolding get_list_tail Links
get_list_tail-last heap k ys x list =
    let len : length (ys ++ (x ∷ [])) ≡ suc (length ys) =
      omega (arith, length-append ys (x ∷ [])) in
    let whole = append_assoc ys (x ∷ []) (tail k ∷ []) in
    let (_, at_p, _) =
      Links-back heap (head k ∷ ys) x (tail k ∷ [])
        (subst (λ t. Links heap (head k ∷ t)) whole (list.links)) in
    rw (list.ops_eq, len, get_tail-some (length ys) k heap) at_p

-- From a list of fewer than 2 ^ 64 elements, and of one at least, the tail is taken: the list loses
-- its last element, which is the result.
pub remove_list_tail-last :
    (heap : Heap) (k : ℕ) (ys : List Addr) (x : Addr)
    → IsList heap k (ys ++ (x ∷ []))
    → length (ys ++ (x ∷ [])) < 2 ^ 64
    → (heap' : Heap) × (remove_list_tail k heap ≡ some (some x, heap')) × IsList heap' k ys
unfolding remove_list_tail
remove_list_tail-last heap k ys x list small =
    let (heap', run, shorter, _, _) = remove_list_element-IsList heap k ys [] x list small in
    (
      heap',
      rw (get_list_tail-last heap k ys x list, run) refl,
      subst (IsList heap' k) (append-nil ys) shorter,
    )
