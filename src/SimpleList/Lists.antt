-- ===== src/SimpleList/Lists.antt =====
-- What it is for a header to have a list, and how an element comes into one.
use osns.Prelude.{
  ℕ, zero, suc, ◌≡◌, refl, ap, ◌∙◌, true, false, Option, none, some, List, [], ◌∷◌, ◌++◌, All,
  append_assoc, length, bit_and, ◌==◌, ==_refl,
}
use osns.SimpleList.{
  Addr, head, tail, same_addr, Heap, HeaderOps, empty_header_ops, one_list_ops, default_header_ops,
  system_head_element_ops, system_tail_element_ops,
}
use osns.SimpleList.{init_list_element}
use osns.SimpleList.Users.{fresh_header, init_list_header, flag_init, type_empty}
use osns.SimpleList.Links.{Links, Apart, Distinct, SameN, SameP, Links-cons, All-split}
use osns.SimpleList.Insert.{IsOwned, SameOwner, All-IsOwned}

-- The head, the elements and the tail.
abbrev pub ring : ℕ → List Addr → List Addr
ring k xs = head k ∷ (xs ++ (tail k ∷ []))

-- The table of the header for the number of elements.
unfoldable pub ops_for : ℕ → HeaderOps
ops_for zero = empty_header_ops
ops_for (suc zero) = one_list_ops
ops_for (suc (suc m)) = default_header_ops

-- The header `k` has the list `xs`.
pub record IsList (heap : Heap) (k : ℕ) (xs : List Addr) : Type 0 where
  pub links : Links heap (ring k xs)
  pub distinct : Distinct (ring k xs)
  pub owned : All (IsOwned heap k) xs
  pub count_eq : (heap.headers k).count ≡ length xs
  pub ops_eq : (heap.headers k).ops ≡ ops_for (length xs)
  pub ends :
      (heap.ops (head k) ≡ system_head_element_ops) × (heap.ops (tail k) ≡ system_tail_element_ops)

-- The list is cut in front of `zs`: `p` is the last address of the first part, the head included, and
-- `n` the first of the second, with the tail.
pub record Cut (k : ℕ) (ys zs l : List Addr) (p n : Addr) (r : List Addr) : Type 0 where
  pub front_eq : head k ∷ ys ≡ l ++ (p ∷ [])
  pub back_eq : zs ++ (tail k ∷ []) ≡ n ∷ r

module _ {k : ℕ} {ys zs l : List Addr} {p n : Addr} {r : List Addr}
    (cut : Cut k ys zs l p n r) where
  pub ring-cut : ring k (ys ++ zs) ≡ l ++ (p ∷ n ∷ r)
  ring-cut =
      ap (λ t. head k ∷ t) (append_assoc ys zs (tail k ∷ []))
      ∙ ap (λ t. t ++ (zs ++ (tail k ∷ []))) (cut.front_eq)
      ∙ ap (λ t. (l ++ (p ∷ [])) ++ t) (cut.back_eq)
      ∙ append_assoc l (p ∷ []) (n ∷ r)

  pub ring-with : (e : Addr) → ring k (ys ++ (e ∷ zs)) ≡ l ++ (p ∷ e ∷ n ∷ r)
  ring-with e =
      ap (λ t. head k ∷ t) (append_assoc ys (e ∷ zs) (tail k ∷ []))
      ∙ ap (λ t. t ++ (e ∷ (zs ++ (tail k ∷ [])))) (cut.front_eq)
      ∙ ap (λ t. (l ++ (p ∷ [])) ++ (e ∷ t)) (cut.back_eq)
      ∙ append_assoc l (p ∷ []) (e ∷ n ∷ r)

-- The last address of the first part, and the first of the second.
pub cut_last : (h : Addr) (ys : List Addr) → (l : List Addr) × (p : Addr) × (h ∷ ys ≡ l ++ (p ∷ []))
cut_last h [] = ([], h, refl)
cut_last h (y ∷ ys) = let (l, p, e) = cut_last y ys in (h ∷ l, p, ap (λ t. h ∷ t) e)

pub cut_first :
    (zs : List Addr) (t : Addr) → (n : Addr) × (r : List Addr) × (zs ++ (t ∷ []) ≡ n ∷ r)
cut_first [] t = (t, [], refl)
cut_first (z ∷ zs) t = (z, zs ++ (t ∷ []), refl)

-- An element that is apart from a chain can be initialised.
init-SameN :
    (heap : Heap) (e : Addr) (k : ℕ) (l : List Addr)
    → Apart e l
    → All (SameN heap (init_list_element e (some k) heap)) l
unfolding init_list_element
init-SameN heap e k [] h = tt
init-SameN heap e k (x ∷ l) (ex, h) = (rw ex refl, init-SameN heap e k l h)

init-SameP :
    (heap : Heap) (e : Addr) (k : ℕ) (l : List Addr)
    → Apart e l
    → All (SameP heap (init_list_element e (some k) heap)) l
unfolding init_list_element
init-SameP heap e k [] h = tt
init-SameP heap e k (x ∷ l) (ex, h) = (rw ex refl, init-SameP heap e k l h)

init-SameOwner :
    (heap : Heap) (e : Addr) (k : ℕ) (c : Addr)
    → same_addr e c ≡ false
    → SameOwner heap (init_list_element e (some k) heap) c
unfolding init_list_element
init-SameOwner heap e k c ec = (rw ec refl, rw ec refl)

init-headers :
    (heap : Heap) (e : Addr) (k : ℕ) → (init_list_element e (some k) heap).headers ≡ heap.headers
unfolding init_list_element
init-headers heap e k = refl

-- The head and the tail keep their tables.
pub same_ends :
    (heap heap' : Heap) (k : ℕ) (xs : List Addr) (e : Addr)
    → ((c : Addr) → same_addr e c ≡ false → SameOwner heap heap' c)
    → Apart e (ring k xs)
    → (heap.ops (head k) ≡ system_head_element_ops) × (heap.ops (tail k) ≡ system_tail_element_ops)
    → (heap'.ops (head k) ≡ system_head_element_ops)
      × (heap'.ops (tail k) ≡ system_tail_element_ops)
same_ends heap heap' k xs e keep (at_head, apart) (h, t) =
    let (_, (at_tail, _)) = All-split (λ c. same_addr e c ≡ false) xs (tail k ∷ []) apart in
    ((keep (head k) at_head).1 ∙ h, (keep (tail k) at_tail).1 ∙ t)

pub init-IsList :
    (heap : Heap) (k : ℕ) (xs : List Addr) (e : Addr)
    → IsList heap k xs
    → Apart e (ring k xs)
    → IsList (init_list_element e (some k) heap) k xs
init-IsList heap k xs e list apart =
    let (apart_h, apart_t) = apart in
    let (apart_xs, _) = All-split (λ c. same_addr e c ≡ false) xs (tail k ∷ []) apart_t in
    record {
      links =
          Links-cons heap (init_list_element e (some k) heap) (head k) (xs ++ (tail k ∷ []))
            (list.links) (init-SameN heap e k (ring k xs) apart)
            (init-SameP heap e k (xs ++ (tail k ∷ [])) apart_t);
      distinct = list.distinct;
      owned =
          All-IsOwned heap (init_list_element e (some k) heap) k e xs (init-SameOwner heap e k)
            apart_xs (list.owned);
      count_eq = rw (init-headers heap e k) (list.count_eq);
      ops_eq = rw (init-headers heap e k) (list.ops_eq);
      ends =
          same_ends heap (init_list_element e (some k) heap) k xs e (init-SameOwner heap e k) apart
            (list.ends);
    }

pub fresh-IsList : (heap : Heap) (k : ℕ) → IsList (fresh_header k heap) k []
unfolding fresh_header Links Distinct same_addr ops_for
fresh-IsList heap k = record {
  links = (rw (==_refl k) refl, rw (==_refl k) refl, tt);
  distinct = ((refl, tt), (tt, tt));
  owned = tt;
  count_eq = rw (==_refl k) refl;
  ops_eq = rw (==_refl k) refl;
  ends = (rw (==_refl k) refl, rw (==_refl k) refl);
}

-- A header that is not marked as initialised, and is initialised with the type for an empty list, has
-- the empty list.
pub init_list_header-IsList :
    (heap : Heap) (k : ℕ) (e : Option Addr)
    → (bit_and (heap.headers k).flags flag_init == 0) ≡ true
    → (heap' : Heap) × (init_list_header k type_empty e heap ≡ some heap') × IsList heap' k []
unfolding init_list_header Links Distinct same_addr ops_for
init_list_header-IsList heap k none h = (_, rw h refl, fresh-IsList heap k)
init_list_header-IsList heap k (some e) h = (_, rw h refl, fresh-IsList heap k)
