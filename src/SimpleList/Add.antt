-- ===== src/SimpleList/Add.antt =====
-- The functions that add an element to a list.
use osns.Prelude.{
  ℕ, zero, suc, ◌+◌, ◌^◌, ◌<◌, ◌≡◌, refl, sym, ap, subst, arith, ◌∙◌, some, List, [], ◌∷◌, ◌++◌,
  append_assoc, append-nil, length, length-append,
}
use osns.SimpleList.{Addr, head, tail, Heap, init_list_element, link_between}
use osns.SimpleList.Users.{
  insert_after, insert_before, add_list_element_first, add_list_element_last,
  add_list_element_after, add_list_element_before,
}
use osns.SimpleList.Links.{Links, Apart, Links-back}
use osns.SimpleList.Lists.{ring, ops_for, IsList, Cut, ring-cut, cut_last, cut_first, init-IsList}
use osns.SimpleList.Grow.{grow_ops, grow-IsList}
use osns.SimpleList.Frame.{Frame, grow-Frame}

insert_after-ops :
    (m : ℕ) (heap : Heap) (k : ℕ) (p e n : Addr)
    → heap.n p ≡ some n
    → (m ≡ 0 → p ≡ head k)
    → insert_after (ops_for m) k p e heap ≡ some (grow_ops m k (link_between k p e n heap))
unfolding insert_after ops_for grow_ops osns.SimpleList.insert_common_empty_header
    osns.SimpleList.set_header_ops osns.SimpleList.insert_after_element_one
    osns.SimpleList.same_addr
insert_after-ops zero heap k p e n h first = rw (← first refl, h) refl
insert_after-ops (suc zero) heap k p e n h first = rw h refl
insert_after-ops (suc (suc m)) heap k p e n h first = rw h refl

insert_before-ops :
    (m : ℕ) (heap : Heap) (k : ℕ) (p e n : Addr)
    → heap.n p ≡ some n
    → heap.p n ≡ some p
    → (m ≡ 0 → p ≡ head k)
    → insert_before (ops_for m) k n e heap ≡ some (grow_ops m k (link_between k p e n heap))
unfolding insert_before ops_for grow_ops osns.SimpleList.insert_common_empty_header
    osns.SimpleList.set_header_ops osns.SimpleList.insert_before_element_one
    osns.SimpleList.same_addr
insert_before-ops zero heap k p e n h h' first = rw (← first refl, h) refl
insert_before-ops (suc zero) heap k p e n h h' first = rw h' refl
insert_before-ops (suc (suc m)) heap k p e n h h' first = rw h' refl

only_head : (h p : Addr) (l : List Addr) → h ∷ [] ≡ l ++ (p ∷ []) → p ≡ h
only_head h p [] e = cc
only_head h p (x ∷ l) e =
    absurd (omega (arith, length-append l (p ∷ []), ap (λ (t : List Addr). length t) e))

module _ (heap : Heap) (k : ℕ) (ys zs l : List Addr) (p e n : Addr) (r : List Addr)
    (list : IsList heap k (ys ++ zs)) (cut : Cut k ys zs l p n r)
    (apart : Apart e (ring k (ys ++ zs))) (small : length (ys ++ zs) + 1 < 2 ^ 64) where
  neighbours :
      ((init_list_element e (some k) heap).n p ≡ some n)
      × ((init_list_element e (some k) heap).p n ≡ some p)
  unfolding Links
  neighbours =
      let ready = init-IsList heap k (ys ++ zs) e list apart in
      let (at_n, at_p, _) =
        Links-back (init_list_element e (some k) heap) l p (n ∷ r)
          (subst (Links (init_list_element e (some k) heap)) (ring-cut cut) (ready.links)) in
      (at_n, at_p)

  at_head : length (ys ++ zs) ≡ 0 → p ≡ head k
  at_head empty =
      elim ys as (λ t. t ≡ ys → p ≡ head k) [
        | [] ↦ λ t. only_head (head k) p l (ap (λ s. head k ∷ s) t ∙ cut.front_eq)
        | y ∷ ys' ↦ λ t.
            absurd (omega (arith, empty, length-append ys zs, ap (λ (s : List Addr). length s) t))
      ]
        refl

  pub after-cut :
      (heap' : Heap) × (add_list_element_after k p e heap ≡ some heap')
      × IsList heap' k (ys ++ (e ∷ zs))
      × Frame heap heap' k (ys ++ zs) e
  unfolding add_list_element_after
  after-cut =
      let ready = init-IsList heap k (ys ++ zs) e list apart in
      (
        _,
        rw (ready.ops_eq) (
            insert_after-ops (length (ys ++ zs)) (init_list_element e (some k) heap) k p e n
              (neighbours.0) at_head),
        grow-IsList (init_list_element e (some k) heap) k ys zs l p e n r ready cut apart small,
        grow-Frame heap (length (ys ++ zs)) k (ys ++ zs) l p e n r (ring-cut cut),
      )

  pub before-cut :
      (heap' : Heap) × (add_list_element_before k n e heap ≡ some heap')
      × IsList heap' k (ys ++ (e ∷ zs))
      × Frame heap heap' k (ys ++ zs) e
  unfolding add_list_element_before
  before-cut =
      let ready = init-IsList heap k (ys ++ zs) e list apart in
      (
        _,
        rw (ready.ops_eq) (
            insert_before-ops (length (ys ++ zs)) (init_list_element e (some k) heap) k p e n
              (neighbours.0) (neighbours.1) at_head),
        grow-IsList (init_list_element e (some k) heap) k ys zs l p e n r ready cut apart small,
        grow-Frame heap (length (ys ++ zs)) k (ys ++ zs) l p e n r (ring-cut cut),
      )

-- An element is added at the front, and nothing else changes.
pub add_list_element_first-Frame :
    (heap : Heap) (k : ℕ) (xs : List Addr) (e : Addr)
    → IsList heap k xs
    → Apart e (ring k xs)
    → length xs + 1 < 2 ^ 64
    → (heap' : Heap) × (add_list_element_first k e heap ≡ some heap')
      × IsList heap' k (e ∷ xs)
      × Frame heap heap' k xs e
unfolding add_list_element_first add_list_element_after
add_list_element_first-Frame heap k xs e list apart small =
    let (n, r, back) = cut_first xs (tail k) in
    after-cut heap k [] xs [] (head k) e n r list (record { front_eq = refl; back_eq = back }) apart
      small

-- An element that is not in the list of a header, of fewer than 2 ^ 64 - 1 elements, comes to its
-- front. The list stays well-formed.
pub add_list_element_first-IsList :
    (heap : Heap) (k : ℕ) (xs : List Addr) (e : Addr)
    → IsList heap k xs
    → Apart e (ring k xs)
    → length xs + 1 < 2 ^ 64
    → (heap' : Heap) × (add_list_element_first k e heap ≡ some heap') × IsList heap' k (e ∷ xs)
add_list_element_first-IsList heap k xs e list apart small =
    let (heap', run, grown, _) = add_list_element_first-Frame heap k xs e list apart small in
    (heap', run, grown)

-- An element is added at the end, and nothing else changes.
pub add_list_element_last-Frame :
    (heap : Heap) (k : ℕ) (xs : List Addr) (e : Addr)
    → IsList heap k xs
    → Apart e (ring k xs)
    → length xs + 1 < 2 ^ 64
    → (heap' : Heap) × (add_list_element_last k e heap ≡ some heap')
      × IsList heap' k (xs ++ (e ∷ []))
      × Frame heap heap' k xs e
unfolding add_list_element_last add_list_element_before
add_list_element_last-Frame heap k xs e list apart small =
    let (l, p, front) = cut_last (head k) xs in
    let same = append-nil xs in
    let (heap', run, grown, frame) =
      before-cut heap k xs [] l p e (tail k) [] (subst (IsList heap k) (sym same) list)
        (record { front_eq = front; back_eq = refl })
        (subst (λ t. Apart e (ring k t)) (sym same) apart)
        (subst (λ (t : List Addr). length t + 1 < 2 ^ 64) (sym same) small) in
    (heap', run, grown, subst (λ t. Frame heap heap' k t e) same frame)

-- An element that is not in the list of a header, of fewer than 2 ^ 64 - 1 elements, comes to its end.
-- The list stays well-formed.
pub add_list_element_last-IsList :
    (heap : Heap) (k : ℕ) (xs : List Addr) (e : Addr)
    → IsList heap k xs
    → Apart e (ring k xs)
    → length xs + 1 < 2 ^ 64
    → (heap' : Heap) × (add_list_element_last k e heap ≡ some heap')
      × IsList heap' k (xs ++ (e ∷ []))
add_list_element_last-IsList heap k xs e list apart small =
    let (heap', run, grown, _) = add_list_element_last-Frame heap k xs e list apart small in
    (heap', run, grown)

-- An element that is not in the list of a header, of fewer than 2 ^ 64 - 1 elements, comes behind one
-- that is. The list stays well-formed.
add_list_element_after-IsList :
    (heap : Heap) (k : ℕ) (xs zs : List Addr) (p e : Addr)
    → IsList heap k (xs ++ (p ∷ zs))
    → Apart e (ring k (xs ++ (p ∷ zs)))
    → length (xs ++ (p ∷ zs)) + 1 < 2 ^ 64
    → (heap' : Heap) × (add_list_element_after k p e heap ≡ some heap')
      × IsList heap' k (xs ++ (p ∷ e ∷ zs))
add_list_element_after-IsList heap k xs zs p e list apart small =
    let (n, r, back) = cut_first zs (tail k) in
    let same = append_assoc xs (p ∷ []) zs in
    let (heap', run, grown, _) =
      after-cut heap k (xs ++ (p ∷ [])) zs (head k ∷ xs) p e n r
        (subst (IsList heap k) (sym same) list) (record { front_eq = refl; back_eq = back })
        (subst (λ t. Apart e (ring k t)) (sym same) apart)
        (subst (λ (t : List Addr). length t + 1 < 2 ^ 64) (sym same) small) in
    (heap', run, subst (IsList heap' k) (append_assoc xs (p ∷ []) (e ∷ zs)) grown)

-- An element that is not in the list of a header, of fewer than 2 ^ 64 - 1 elements, comes in front of
-- one that is. The list stays well-formed.
pub add_list_element_before-IsList :
    (heap : Heap) (k : ℕ) (xs zs : List Addr) (n e : Addr)
    → IsList heap k (xs ++ (n ∷ zs))
    → Apart e (ring k (xs ++ (n ∷ zs)))
    → length (xs ++ (n ∷ zs)) + 1 < 2 ^ 64
    → (heap' : Heap) × (add_list_element_before k n e heap ≡ some heap')
      × IsList heap' k (xs ++ (e ∷ n ∷ zs))
add_list_element_before-IsList heap k xs zs n e list apart small =
    let (l, p, front) = cut_last (head k) xs in
    let (heap', run, grown, _) =
      before-cut heap k xs (n ∷ zs) l p e n (zs ++ (tail k ∷ [])) list
        (record { front_eq = front; back_eq = refl }) apart small in
    (heap', run, grown)
