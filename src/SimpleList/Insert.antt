-- ===== src/SimpleList/Insert.antt =====
-- An element that is put between two neighbours of a chain.
use osns.Prelude.{ℕ, ◌≡◌, refl, ◌∙◌, false, some, List, [], ◌∷◌, ◌++◌, All, append_assoc}
use osns.SimpleList.{Addr, same_addr, Heap, default_element_ops, link_between}
use osns.SimpleList.Links.{
  Links, Apart, Distinct, SameN, SameP, Links-cons, Links-snoc, Links-front, Links-back, Links-join,
  All-split, All-join, Distinct-back, Distinct-front, same_addr_sym, same_addr_refl,
}

-- An element of the list of the header `k`.
abbrev pub IsOwned : Heap → ℕ → Addr → Type 0
IsOwned heap k a = ((heap.h a) ≡ some k) × ((heap.ops a) ≡ default_element_ops)

abbrev pub SameOwner : Heap → Heap → Addr → Type 0
SameOwner heap heap' a = ((heap'.h a) ≡ (heap.h a)) × ((heap'.ops a) ≡ (heap.ops a))

-- The second store is the first with `e` linked between `p` and `n`, and no other pointer changed.
pub record Between (heap heap' : Heap) (k : ℕ) (p e n : Addr) : Type 0 where
  pub e_n : (heap'.n e) ≡ some n
  pub e_p : (heap'.p e) ≡ some p
  pub p_n : (heap'.n p) ≡ some e
  pub n_p : (heap'.p n) ≡ some e
  pub e_owned : IsOwned heap' k e
  pub keep_n : (c : Addr) → same_addr e c ≡ false → same_addr p c ≡ false → SameN heap heap' c
  pub keep_p : (c : Addr) → same_addr e c ≡ false → same_addr n c ≡ false → SameP heap heap' c
  pub keep_owner : (c : Addr) → same_addr e c ≡ false → SameOwner heap heap' c

-- `link_between`, or the same writes in the order of `insert_element_before_default`.
pub link_between-Between :
    (heap : Heap) (k : ℕ) (p e n : Addr)
    → same_addr e p ≡ false
    → same_addr e n ≡ false
    → Between heap (link_between k p e n heap) k p e n
unfolding link_between
link_between-Between heap k p e n ep en = record {
  e_n = rw (same_addr_refl e) refl;
  e_p = rw (same_addr_refl e) refl;
  p_n = rw (ep, same_addr_refl p) refl;
  n_p = rw (en, same_addr_refl n) refl;
  e_owned = (rw (same_addr_refl e) refl, rw (same_addr_refl e) refl);
  keep_n = λ c ec pc. rw (ec, pc) refl;
  keep_p = λ c ec nc. rw (ec, nc) refl;
  keep_owner = λ c ec. (rw ec refl, rw ec refl);
}

All-keep :
    (P Q R : Addr → Type 0) (f : (c : Addr) → P c → Q c → R c) (l : List Addr)
    → All P l
    → All Q l
    → All R l
All-keep P Q R f [] ps qs = tt
All-keep P Q R f (x ∷ l) (p, ps) (q, qs) = (f x p q, All-keep P Q R f l ps qs)

-- The two parts of a chain around `p` and `n`, where only the `n` of `p` and the `p` of `n` change, and
-- the fields of addresses like `e` outside of it.
pub Links-around :
    (heap heap' : Heap) (e : Addr) (l : List Addr) (p n : Addr) (r m : List Addr)
    → ((c : Addr) → same_addr e c ≡ false → same_addr p c ≡ false → SameN heap heap' c)
    → ((c : Addr) → same_addr e c ≡ false → same_addr n c ≡ false → SameP heap heap' c)
    → Links heap (l ++ (p ∷ m))
    → Links heap (n ∷ r)
    → Distinct (l ++ (p ∷ n ∷ r))
    → Apart e (l ++ (p ∷ n ∷ r))
    → Links heap' (l ++ (p ∷ [])) × Links heap' (n ∷ r)
unfolding Distinct
Links-around heap heap' e l p n r m keep_n keep_p front back d apart =
    let (apart_l, (apart_p, (apart_n, apart_r))) =
      All-split (λ c. same_addr e c ≡ false) l (p ∷ n ∷ r) apart in
    let p_l = Distinct-front l (n ∷ r) p d in
    let n_lp = Distinct-front (l ++ (p ∷ [])) r n (rw (append_assoc l (p ∷ []) (n ∷ r)) d) in
    let (p_nr, (n_r, _)) = Distinct-back l (p ∷ n ∷ r) d in
    let keeps_n = All-keep _ _ (SameN heap heap') keep_n in
    let keeps_p = All-keep _ _ (SameP heap heap') keep_p in
    let apart_lp = All-join (λ c. same_addr e c ≡ false) l (p ∷ []) apart_l (apart_p, tt) in
    (
      Links-snoc heap heap' l p (Links-front heap l p m front) (keeps_n l apart_l p_l)
          (keeps_p (l ++ (p ∷ [])) apart_lp n_lp),
      Links-cons heap heap' n r back (keeps_n (n ∷ r) (apart_n, apart_r) p_nr)
          (keeps_p r apart_r n_r),
    )

-- The chain with the element in it.
pub Between-Links :
    (heap heap' : Heap) (k : ℕ) (l : List Addr) (p e n : Addr) (r : List Addr)
    → Between heap heap' k p e n
    → Links heap (l ++ (p ∷ n ∷ r))
    → Distinct (l ++ (p ∷ n ∷ r))
    → Apart e (l ++ (p ∷ n ∷ r))
    → Links heap' (l ++ (p ∷ e ∷ n ∷ r))
unfolding Links
Between-Links heap heap' k l p e n r b links d apart =
    let (_, _, behind) = Links-back heap l p (n ∷ r) links in
    let (front, back) =
      Links-around heap heap' e l p n r (n ∷ r) (b.keep_n) (b.keep_p) links behind d apart in
    Links-join heap' l p (e ∷ n ∷ r) front (b.p_n, b.e_p, (b.e_n, b.n_p, back))

pub Distinct-insert :
    (l r : List Addr) (e : Addr) → Distinct (l ++ r) → Apart e (l ++ r) → Distinct (l ++ (e ∷ r))
unfolding Distinct
Distinct-insert [] r e d apart = (apart, d)
Distinct-insert (x ∷ l) r e (a, d) (ex, apart) =
    let (a_l, a_r) = All-split (λ c. same_addr x c ≡ false) l r a in
    (
      All-join (λ c. same_addr x c ≡ false) l (e ∷ r) a_l (same_addr_sym x e ∙ ex, a_r),
      Distinct-insert l r e d apart,
    )

pub All-IsOwned :
    (heap heap' : Heap) (k : ℕ) (e : Addr) (l : List Addr)
    → ((c : Addr) → same_addr e c ≡ false → SameOwner heap heap' c)
    → Apart e l
    → All (IsOwned heap k) l
    → All (IsOwned heap' k) l
All-IsOwned heap heap' k e [] keep apart owned = tt
All-IsOwned heap heap' k e (x ∷ l) keep (ex, apart) ((h, o), owned) =
    let (sh, so) = keep x ex in ((sh ∙ h, so ∙ o), All-IsOwned heap heap' k e l keep apart owned)
