-- ===== src/SimpleList/Grow.antt =====
-- A list with one element more.
use osns.Prelude.{
  ℕ, zero, suc, ◌+◌, ◌^◌, ◌<◌, ◌≡◌, refl, sym, subst, arith, ◌∙◌, false, List, [], ◌∷◌, ◌++◌,
  append_assoc, length, length-append, ==_refl,
}
use osns.SimpleList.{Addr, tail, same_addr, Heap, one_list_ops, default_header_ops}
use osns.SimpleList.{link_between, set_header_ops}
use osns.SimpleList.Links.{Links, Apart, Distinct, All-split, All-join}
use osns.SimpleList.Insert.{
  IsOwned, Between, link_between-Between, Between-Links, Distinct-insert, All-IsOwned,
}
use osns.SimpleList.Lists.{ring, ops_for, IsList, Cut, ring-cut, ring-with, same_ends}

-- What is done to the table of the header when a list of `m` elements grows.
unfoldable pub grow_ops : ℕ → ℕ → Heap → Heap
grow_ops zero k heap = set_header_ops k one_list_ops heap
grow_ops (suc zero) k heap = set_header_ops k default_header_ops heap
grow_ops (suc (suc m)) k heap = heap

grow_ops-Between :
    (m : ℕ) (heap heap' : Heap) (k : ℕ) (p e n : Addr)
    → Between heap heap' k p e n
    → Between heap (grow_ops m k heap') k p e n
unfolding grow_ops set_header_ops
grow_ops-Between zero heap heap' k p e n b = record {
  e_n = b.e_n;
  e_p = b.e_p;
  p_n = b.p_n;
  n_p = b.n_p;
  e_owned = b.e_owned;
  keep_n = b.keep_n;
  keep_p = b.keep_p;
  keep_owner = b.keep_owner;
}
grow_ops-Between (suc zero) heap heap' k p e n b = record {
  e_n = b.e_n;
  e_p = b.e_p;
  p_n = b.p_n;
  n_p = b.n_p;
  e_owned = b.e_owned;
  keep_n = b.keep_n;
  keep_p = b.keep_p;
  keep_owner = b.keep_owner;
}
grow_ops-Between (suc (suc m)) heap heap' k p e n b = b

grow_ops-count :
    (m : ℕ) (heap : Heap) (k : ℕ) (p e n : Addr)
    → (heap.headers k).count ≡ m
    → m + 1 < 2 ^ 64
    → ((grow_ops m k (link_between k p e n heap)).headers k).count ≡ suc m
unfolding grow_ops set_header_ops link_between
grow_ops-count zero heap k p e n h small = rw (==_refl k, h) refl
grow_ops-count (suc zero) heap k p e n h small = rw (==_refl k, h) refl
grow_ops-count (suc (suc m)) heap k p e n h small = rw (==_refl k, h) (omega arith)

grow_ops-ops :
    (m : ℕ) (heap : Heap) (k : ℕ) (p e n : Addr)
    → (heap.headers k).ops ≡ ops_for m
    → ((grow_ops m k (link_between k p e n heap)).headers k).ops ≡ ops_for (suc m)
unfolding grow_ops set_header_ops link_between ops_for
grow_ops-ops zero heap k p e n h = rw (==_refl k) refl
grow_ops-ops (suc zero) heap k p e n h = rw (==_refl k) refl
grow_ops-ops (suc (suc m)) heap k p e n h = rw (==_refl k, h) refl

-- The list with the element in it.
pub grow-IsList :
    (heap : Heap) (k : ℕ) (ys zs l : List Addr) (p e n : Addr) (r : List Addr)
    → IsList heap k (ys ++ zs)
    → Cut k ys zs l p n r
    → Apart e (ring k (ys ++ zs))
    → length (ys ++ zs) + 1 < 2 ^ 64
    → IsList (grow_ops (length (ys ++ zs)) k (link_between k p e n heap)) k (ys ++ (e ∷ zs))
grow-IsList heap k ys zs l p e n r list cut apart small =
    let m = length (ys ++ zs) in
    let heap' = grow_ops m k (link_between k p e n heap) in
    let whole = ring-cut cut in
    let apart' = subst (λ c. Apart e c) whole apart in
    let (apart_l, (ep, (en, apart_r))) =
      All-split (λ c. same_addr e c ≡ false) l (p ∷ n ∷ r) apart' in
    let b =
      grow_ops-Between m heap (link_between k p e n heap) k p e n
        (link_between-Between heap k p e n ep en) in
    let (apart_xs, _) = All-split (λ c. same_addr e c ≡ false) (ys ++ zs) (tail k ∷ []) (apart.1) in
    let owned = All-IsOwned heap heap' k e (ys ++ zs) (b.keep_owner) apart_xs (list.owned) in
    let (owned_y, owned_z) = All-split (IsOwned heap' k) ys zs owned in
    let len : length (ys ++ (e ∷ zs)) ≡ suc m =
      omega (arith, length-append ys zs, length-append ys (e ∷ zs)) in
    let d = subst Distinct whole (list.distinct) in
    let at_p = append_assoc l (p ∷ []) (n ∷ r) in
    let with_e =
      Distinct-insert (l ++ (p ∷ [])) (n ∷ r) e (subst Distinct (sym at_p) d)
        (subst (λ c. Apart e c) (sym at_p) apart') in
    let back = sym (ring-with cut e) in
    record {
      links =
          subst (Links heap') back (
            Between-Links heap heap' k l p e n r b (subst (Links heap) whole (list.links)) d
              apart');
      distinct = subst Distinct (append_assoc l (p ∷ []) (e ∷ n ∷ r) ∙ back) with_e;
      owned = All-join (IsOwned heap' k) ys (e ∷ zs) owned_y (b.e_owned, owned_z);
      count_eq = rw len (grow_ops-count m heap k p e n (list.count_eq) small);
      ops_eq = rw len (grow_ops-ops m heap k p e n (list.ops_eq));
      ends = same_ends heap heap' k (ys ++ zs) e (b.keep_owner) apart (list.ends);
    }
