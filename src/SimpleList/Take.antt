-- ===== src/SimpleList/Take.antt =====
-- The functions that take an element out of a list, and those that look at its ends.
use osns.Prelude.{
  ℕ, suc, ◌^◌, ◌<◌, ◌≡◌, refl, sym, ap, subst, arith, ◌∙◌, none, some, List, [], ◌∷◌, ◌++◌,
  append_assoc, length, drop, length-append, Option, false,
}
use osns.SimpleList.{Addr, head, tail, same_addr, Heap, standalone_element_ops, unlink}
use osns.SimpleList.Users.{remove_list_element, get_head, get_list_head, remove_list_head}
use osns.SimpleList.Links.{Links, Apart, Distinct, Links-back, All-split, All-join}
use osns.SimpleList.Insert.{IsOwned, All-IsOwned}
use osns.SimpleList.Remove.{unlink-Without, Without-Links, Distinct-remove}
use osns.SimpleList.Lists.{
  ops_for, IsList, Cut, ring-cut, ring-with, cut_last, cut_first, same_ends,
}
use osns.SimpleList.Shrink.{shrink, delete-ops, unlink-headers, shrink-Without, shrink-header}
use osns.SimpleList.Frame.{Frame, shrink-Frame}

-- An element is taken out of its list, and nothing else changes.
pub remove_list_element-Frame :
    (heap : Heap) (k : ℕ) (ys zs : List Addr) (e : Addr)
    → IsList heap k (ys ++ (e ∷ zs))
    → length (ys ++ (e ∷ zs)) < 2 ^ 64
    → (heap' : Heap) × (remove_list_element (some e) heap ≡ some heap')
      × IsList heap' k (ys ++ zs)
      × (heap'.h e ≡ none)
      × (heap'.ops e ≡ standalone_element_ops)
      × Frame heap heap' k (ys ++ zs) e
unfolding remove_list_element Links
remove_list_element-Frame heap k ys zs e list small =
    let (l, p, front) = cut_last (head k) ys in
    let (n, r, back) = cut_first zs (tail k) in
    let cut : Cut k ys zs l p n r = record { front_eq = front; back_eq = back } in
    let m = length (ys ++ zs) in
    let heap' = shrink m k (unlink p e n heap) in
    let len : length (ys ++ (e ∷ zs)) ≡ suc m =
      omega (arith, length-append ys zs, length-append ys (e ∷ zs)) in
    let whole = ring-with cut e in
    let links = subst (Links heap) whole (list.links) in
    let (_, at_p, (at_n, _, _)) = Links-back heap l p (e ∷ n ∷ r) links in
    let at_lp = append_assoc l (p ∷ []) (e ∷ n ∷ r) in
    let (d, apart) =
      Distinct-remove (l ++ (p ∷ [])) (n ∷ r) e
        (subst Distinct (sym at_lp) (subst Distinct whole (list.distinct))) in
    let at_lp' = append_assoc l (p ∷ []) (n ∷ r) in
    let d' = subst Distinct at_lp' d in
    let apart' = subst (λ c. Apart e c) at_lp' apart in
    let (_, (ep, (en, _))) = All-split (λ c. same_addr e c ≡ false) l (p ∷ n ∷ r) apart' in
    let w = shrink-Without m heap (unlink p e n heap) k p e n (unlink-Without heap p e n ep en) in
    let count : (heap.headers k).count ≡ suc m = list.count_eq ∙ len in
    let ops : (heap.headers k).ops ≡ ops_for (suc m) = list.ops_eq ∙ ap ops_for len in
    let (owned_y, ((own_h, own_ops), owned_z)) =
      All-split (IsOwned heap k) ys (e ∷ zs) (list.owned) in
    let back_ring = sym (ring-cut cut) in
    let apart_ring = subst (λ c. Apart e c) back_ring apart' in
    let (apart_xs, _) =
      All-split (λ c. same_addr e c ≡ false) (ys ++ zs) (tail k ∷ []) (apart_ring.1) in
    let header =
      shrink-header m (unlink p e n heap) k (rw (unlink-headers heap p e n) count) (omega arith)
        (rw (unlink-headers heap p e n) ops) in
    (
      heap',
      rw (own_ops, own_h, ops) (delete-ops m heap k p e n at_n at_p count (omega arith)),
      record {
        links =
            subst (Links heap') back_ring (Without-Links heap heap' l p e n r w links d' apart');
        distinct = subst Distinct back_ring d';
        owned =
            All-IsOwned heap heap' k e (ys ++ zs) (w.keep_owner) apart_xs
              (All-join (IsOwned heap k) ys zs owned_y owned_z);
        count_eq = header.0;
        ops_eq = header.1;
        ends = same_ends heap heap' k (ys ++ zs) e (w.keep_owner) apart_ring (list.ends);
      },
      w.e_h,
      w.e_ops,
      shrink-Frame heap m k (ys ++ zs) l p e n r (ring-cut cut),
    )

-- An element that is in a list of fewer than 2 ^ 64 is taken out of it: the header has the list of the
-- others, in their order and with their number, and the element stands alone.
pub remove_list_element-IsList :
    (heap : Heap) (k : ℕ) (ys zs : List Addr) (e : Addr)
    → IsList heap k (ys ++ (e ∷ zs))
    → length (ys ++ (e ∷ zs)) < 2 ^ 64
    → (heap' : Heap) × (remove_list_element (some e) heap ≡ some heap')
      × IsList heap' k (ys ++ zs)
      × (heap'.h e ≡ none)
      × (heap'.ops e ≡ standalone_element_ops)
remove_list_element-IsList heap k ys zs e list small =
    let (heap', run, shorter, owner, ops, _) =
      remove_list_element-Frame heap k ys zs e list small in
    (heap', run, shorter, owner, ops)

-- The first element of a list, and the last.
unfoldable pub first : List Addr → Option Addr
first [] = none
first (x ∷ xs) = some x

pub get_list_head-first :
    (heap : Heap) (k : ℕ) (xs : List Addr) → IsList heap k xs → get_list_head k heap ≡ first xs
unfolding get_list_head get_head first ops_for Links
get_list_head-first heap k [] list = rw (list.ops_eq) refl
get_list_head-first heap k (x ∷ []) list = rw (list.ops_eq) (list.links.0)
get_list_head-first heap k (x ∷ y ∷ xs) list = rw (list.ops_eq) (list.links.0)

-- From a list of fewer than 2 ^ 64 elements the head is taken: the list loses its first element, which
-- is the result. An empty list stays as it is, and the result is NULL.
pub remove_list_head-first :
    (heap : Heap) (k : ℕ) (xs : List Addr)
    → IsList heap k xs
    → length xs < 2 ^ 64
    → (heap' : Heap) × (remove_list_head k heap ≡ some (first xs, heap'))
      × IsList heap' k (drop 1 xs)
unfolding remove_list_head first remove_list_element
remove_list_head-first heap k [] list small =
    (heap, rw (get_list_head-first heap k [] list) refl, list)
remove_list_head-first heap k (x ∷ xs) list small =
    let (heap', run, shorter, _, _) = remove_list_element-IsList heap k [] xs x list small in
    (heap', rw (get_list_head-first heap k (x ∷ xs) list, run) refl, shorter)
