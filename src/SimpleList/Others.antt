-- ===== src/SimpleList/Others.antt =====
-- The lists of several headers in one store.
use osns.Prelude.{
  append_assoc, subst, ℕ, ◌≡◌, refl, ap, sym, ◌∙◌, arith, false, Bool-cases, inl, inr, Option, none,
  some, List, [], ◌∷◌, ◌++◌, All, ◌==◌,
}
use osns.SimpleList.{Addr, head, tail, element, same_addr, Heap, init_list_element}
use osns.SimpleList.Links.{
  Distinct, Apart, Links-cons, All-split, All-join, same_addr_sym, same_addr→eq,
}
use osns.SimpleList.Remove.{Distinct-remove}
use osns.SimpleList.Insert.{IsOwned}
use osns.SimpleList.Lists.{ring, IsList}
use osns.SimpleList.Frame.{Frame, Same}

-- Neither the head nor the tail of a header.
abbrev pub IsElement : Addr → Type 0
IsElement a = (i : ℕ) × (a ≡ element i)

pub All-map : (P Q : Addr → Type 0) (f : (c : Addr) → P c → Q c) (l : List Addr) → All P l → All Q l
All-map P Q f [] h = tt
All-map P Q f (x ∷ l) (hx, h) = (f x hx, All-map P Q f l h)

pub All-both : (P Q : Addr → Type 0) (l : List Addr) → All P l → All Q l → All (λ c. P c × Q c) l
All-both P Q [] ps qs = tt
All-both P Q (x ∷ l) (p, ps) (q, qs) = ((p, q), All-both P Q l ps qs)

number : Option ℕ → ℕ
number none = 0
number (some k) = k

-- An element of one list is none of the elements of another.
pub other_owner :
    (heap : Heap) (j k : ℕ) (c x : Addr)
    → (k == j) ≡ false
    → IsOwned heap j c
    → IsOwned heap k x
    → same_addr c x ≡ false
unfolding number
other_owner heap j k c x kj (hc, _) (hx, _) = elim (Bool-cases (same_addr c x)) [
  | inr f ↦ f
  | inl t ↦
      let same : heap.h c ≡ heap.h x = ap (λ a. heap.h a) (same_addr→eq c x t) in
      let e : k ≡ j = ap number (sym hx ∙ sym same ∙ hc) in absurd (ground arith)
]

pub not_head : (c : Addr) (k : ℕ) → IsElement c → same_addr c (head k) ≡ false
unfolding same_addr
not_head c k (i, e) = rw e refl

not_tail : (c : Addr) (k : ℕ) → IsElement c → same_addr c (tail k) ≡ false
unfolding same_addr
not_tail c k (i, e) = rw e refl

-- An address that is apart from the elements of a list is so from its ring.
pub Apart-ring :
    (c : Addr) (k : ℕ) (xs : List Addr) → IsElement c → Apart c xs → Apart c (ring k xs)
Apart-ring c k xs c_element apart = (
  not_head c k c_element,
  All-join (λ b. same_addr c b ≡ false) xs (tail k ∷ []) apart (not_tail c k c_element, tt),
)

-- The rings of two headers have no address in common.
pub other_rings :
    (heap : Heap) (j k : ℕ) (xs ys : List Addr)
    → (k == j) ≡ false
    → All (IsOwned heap k) xs
    → All IsElement xs
    → All (IsOwned heap j) ys
    → All IsElement ys
    → All (λ c. Apart c (ring k xs)) (ring j ys)
unfolding same_addr
other_rings heap j k xs ys kj owned_x elements_x owned_y elements_y =
    let jk : (j == k) ≡ false = ground arith in
    (
      (
        jk,
        All-join (λ b. same_addr (head j) b ≡ false) xs (tail k ∷ [])
            (All-map IsElement _ (λ c h. same_addr_sym (head j) c ∙ not_head c j h) xs elements_x)
            (refl, tt),
      ),
      All-join (λ c. Apart c (ring k xs)) ys (tail j ∷ [])
          (All-map (λ c. IsOwned heap j c × IsElement c) _
            (λ c h.
              Apart-ring c k xs (h.1) (
                All-map (IsOwned heap k) _ (λ x o. other_owner heap j k c x kj (h.0) o) xs owned_x))
            ys (All-both (IsOwned heap j) IsElement ys owned_y elements_y))
          (
            (
              refl,
              All-join (λ b. same_addr (tail j) b ≡ false) xs (tail k ∷ [])
                  (All-map IsElement _ (λ c h. same_addr_sym (tail j) c ∙ not_tail c j h) xs
                    elements_x)
                  (jk, tt),
            ),
            tt,
          ),
    )

Same-IsOwned :
    (heap heap' : Heap) (j : ℕ) (ys : List Addr)
    → All (Same heap heap') ys
    → All (IsOwned heap j) ys
    → All (IsOwned heap' j) ys
Same-IsOwned heap heap' j [] same owned = tt
Same-IsOwned heap heap' j (y ∷ ys) ((_, _, (sh, so)), same) ((h, o), owned) =
    ((sh ∙ h, so ∙ o), Same-IsOwned heap heap' j ys same owned)

-- A list stays as it is where the fields of its ring and its header do.
pub Same-IsList :
    (heap heap' : Heap) (j : ℕ) (ys : List Addr)
    → All (Same heap heap') (ring j ys)
    → heap'.headers j ≡ heap.headers j
    → IsList heap j ys
    → IsList heap' j ys
Same-IsList heap heap' j ys same same_header list =
    let (same_head, same_rest) = same in
    let (same_ys, (same_tail, _)) = All-split (Same heap heap') ys (tail j ∷ []) same_rest in
    record {
      links =
          Links-cons heap heap' (head j) (ys ++ (tail j ∷ [])) (list.links)
            (All-map (Same heap heap') _ (λ c h. h.0) (ring j ys) same)
            (All-map (Same heap heap') _ (λ c h. h.1) (ys ++ (tail j ∷ [])) same_rest);
      distinct = list.distinct;
      owned = Same-IsOwned heap heap' j ys same_ys (list.owned);
      count_eq = rw same_header (list.count_eq);
      ops_eq = rw same_header (list.ops_eq);
      ends = (same_head.2.1 ∙ list.ends.0, same_tail.2.1 ∙ list.ends.1);
    }

-- In particular where only the ring of another header and an element outside of it may change.
pub Frame-IsList :
    (heap heap' : Heap) (j k : ℕ) (xs ys : List Addr) (e : Addr)
    → Frame heap heap' k xs e
    → (k == j) ≡ false
    → Apart e (ring j ys)
    → All (λ c. Apart c (ring k xs)) (ring j ys)
    → IsList heap j ys
    → IsList heap' j ys
Frame-IsList heap heap' j k xs ys e frame kj apart others =
    Same-IsList heap heap' j ys
      (All-map (λ c. (same_addr e c ≡ false) × Apart c (ring k xs)) (Same heap heap')
        (λ c h. frame.keep c (h.0) (h.1)) (ring j ys)
        (All-both _ (λ c. Apart c (ring k xs)) (ring j ys) apart others))
      (frame.keep_header j kj)

init-Same :
    (heap : Heap) (o : Option ℕ) (e c : Addr)
    → same_addr e c ≡ false
    → Same heap (init_list_element e o heap) c
unfolding init_list_element
init-Same heap none e c ec = (rw ec refl, rw ec refl, (rw ec refl, rw ec refl))
init-Same heap (some j) e c ec = (rw ec refl, rw ec refl, (rw ec refl, rw ec refl))

init-headers :
    (heap : Heap) (o : Option ℕ) (e : Addr) → (init_list_element e o heap).headers ≡ heap.headers
unfolding init_list_element
init-headers heap none e = refl
init-headers heap (some j) e = refl

-- An element that is apart from a list may be initialised.
pub init_other-IsList :
    (heap : Heap) (o : Option ℕ) (k : ℕ) (xs : List Addr) (e : Addr)
    → Apart e (ring k xs)
    → IsList heap k xs
    → IsList (init_list_element e o heap) k xs
init_other-IsList heap o k xs e apart =
    Same-IsList heap (init_list_element e o heap) k xs
      (All-map _ (Same heap (init_list_element e o heap)) (init-Same heap o e) (ring k xs) apart)
      (rw (init-headers heap o e) refl)

-- An element that is taken out of a list is apart from the others.
pub others-Apart :
    (heap : Heap) (k : ℕ) (ys zs : List Addr) (e : Addr)
    → IsList heap k (ys ++ (e ∷ zs))
    → Apart e (ys ++ zs)
others-Apart heap k ys zs e list =
    let d =
      subst (λ t. Distinct (head k ∷ t)) (append_assoc ys (e ∷ zs) (tail k ∷ [])) (list.distinct) in
    let (_, (_, apart)) = Distinct-remove (head k ∷ ys) (zs ++ (tail k ∷ [])) e d in
    (All-split (λ c. same_addr e c ≡ false) (ys ++ zs) (tail k ∷ [])
      (subst (λ t. Apart e t) (sym (append_assoc ys zs (tail k ∷ []))) apart)).0
