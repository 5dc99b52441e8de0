-- ===== src/SimpleList/Frame.antt =====
-- What the operations on the list of one header leave of the lists of other headers.
use osns.Prelude.{ℕ, zero, suc, ◌≡◌, refl, subst, ◌∙◌, false, List, ◌∷◌, ◌++◌, some, ◌==◌}
use osns.SimpleList.{
  Addr, same_addr, Heap, init_list_element, link_between, unlink, set_header_ops, count_down,
}
use osns.SimpleList.Links.{Apart, SameN, SameP, All-split, same_addr_sym}
use osns.SimpleList.Insert.{SameOwner}
use osns.SimpleList.Lists.{ring}
use osns.SimpleList.Grow.{grow_ops}
use osns.SimpleList.Shrink.{shrink}

abbrev pub Same : Heap → Heap → Addr → Type 0
Same heap heap' c = SameN heap heap' c × SameP heap heap' c × SameOwner heap heap' c

-- Only the header `k`, its ring and the element `e` may have changed.
pub record Frame (heap heap' : Heap) (k : ℕ) (xs : List Addr) (e : Addr) : Type 0 where
  pub keep : (c : Addr) → same_addr e c ≡ false → Apart c (ring k xs) → Same heap heap' c
  pub keep_header : (j : ℕ) → (k == j) ≡ false → heap'.headers j ≡ heap.headers j

link-Same :
    (heap : Heap) (k : ℕ) (p e n c : Addr)
    → same_addr e c ≡ false
    → same_addr p c ≡ false
    → same_addr n c ≡ false
    → Same heap (link_between k p e n (init_list_element e (some k) heap)) c
unfolding link_between init_list_element
link-Same heap k p e n c ec pc nc = (rw (ec, pc) refl, rw (ec, nc) refl, (rw ec refl, rw ec refl))

link-headers :
    (heap : Heap) (k : ℕ) (p e n : Addr) (j : ℕ)
    → (k == j) ≡ false
    → (link_between k p e n (init_list_element e (some k) heap)).headers j ≡ heap.headers j
unfolding link_between init_list_element
link-headers heap k p e n j kj = rw kj refl

grow-Same :
    (m k : ℕ) (heap heap' : Heap) (c : Addr) → Same heap heap' c → Same heap (grow_ops m k heap') c
unfolding grow_ops set_header_ops
grow-Same zero k heap heap' c same = same
grow-Same (suc zero) k heap heap' c same = same
grow-Same (suc (suc m)) k heap heap' c same = same

grow-headers :
    (m k : ℕ) (heap : Heap) (j : ℕ)
    → (k == j) ≡ false
    → (grow_ops m k heap).headers j ≡ heap.headers j
unfolding grow_ops set_header_ops
grow-headers zero k heap j kj = rw kj refl
grow-headers (suc zero) k heap j kj = rw kj refl
grow-headers (suc (suc m)) k heap j kj = refl

-- The neighbours in a ring are not an address that is apart from it.
Apart-neighbours :
    (c p n : Addr) (l r : List Addr)
    → Apart c (l ++ (p ∷ n ∷ r))
    → (same_addr p c ≡ false) × (same_addr n c ≡ false)
Apart-neighbours c p n l r h =
    let (_, (cp, (cn, _))) = All-split (λ b. same_addr c b ≡ false) l (p ∷ n ∷ r) h in
    (same_addr_sym p c ∙ cp, same_addr_sym n c ∙ cn)

pub grow-Frame :
    (heap : Heap) (m k : ℕ) (xs l : List Addr) (p e n : Addr) (r : List Addr)
    → ring k xs ≡ l ++ (p ∷ n ∷ r)
    → Frame heap (grow_ops m k (link_between k p e n (init_list_element e (some k) heap))) k xs e
grow-Frame heap m k xs l p e n r whole = record {
  keep = λ c ec apart.
      let (pc, nc) = Apart-neighbours c p n l r (subst (λ t. Apart c t) whole apart) in
      grow-Same m k heap _ c (link-Same heap k p e n c ec pc nc);
  keep_header = λ j kj. grow-headers m k _ j kj ∙ link-headers heap k p e n j kj;
}

unlink-Same :
    (heap : Heap) (p e n c : Addr)
    → same_addr e c ≡ false
    → same_addr p c ≡ false
    → same_addr n c ≡ false
    → Same heap (unlink p e n heap) c
unfolding unlink
unlink-Same heap p e n c ec pc nc = (rw (ec, pc) refl, rw (ec, nc) refl, (rw ec refl, rw ec refl))

shrink-Same :
    (m k : ℕ) (heap heap' : Heap) (c : Addr) → Same heap heap' c → Same heap (shrink m k heap') c
unfolding shrink set_header_ops count_down
shrink-Same zero k heap heap' c same = same
shrink-Same (suc zero) k heap heap' c same = same
shrink-Same (suc (suc m)) k heap heap' c same = same

shrink-headers :
    (m k : ℕ) (heap : Heap) (p e n : Addr) (j : ℕ)
    → (k == j) ≡ false
    → (shrink m k (unlink p e n heap)).headers j ≡ heap.headers j
unfolding shrink set_header_ops count_down unlink
shrink-headers zero k heap p e n j kj = rw kj refl
shrink-headers (suc zero) k heap p e n j kj = rw kj refl
shrink-headers (suc (suc m)) k heap p e n j kj = rw kj refl

-- `xs` is the list without `e`.
pub shrink-Frame :
    (heap : Heap) (m k : ℕ) (xs l : List Addr) (p e n : Addr) (r : List Addr)
    → ring k xs ≡ l ++ (p ∷ n ∷ r)
    → Frame heap (shrink m k (unlink p e n heap)) k xs e
shrink-Frame heap m k xs l p e n r whole = record {
  keep = λ c ec apart.
      let (pc, nc) = Apart-neighbours c p n l r (subst (λ t. Apart c t) whole apart) in
      shrink-Same m k heap _ c (unlink-Same heap p e n c ec pc nc);
  keep_header = λ j kj. shrink-headers m k heap p e n j kj;
}
