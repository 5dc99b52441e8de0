-- ===== src/SimpleList/Remove.antt =====
-- An element that is taken out of a chain.
use osns.Prelude.{◌≡◌, refl, ◌∙◌, false, none, some, List, [], ◌∷◌, ◌++◌}
use osns.SimpleList.{Addr, same_addr, Heap, standalone_element_ops, unlink}
use osns.SimpleList.Links.{
  Links, Apart, Distinct, SameN, SameP, Links-back, Links-join, All-split, same_addr_sym,
  same_addr_refl,
}
use osns.SimpleList.Insert.{SameOwner, Links-around}

-- The second store is the first without `e`, which was between `p` and `n`.
pub record Without (heap heap' : Heap) (p e n : Addr) : Type 0 where
  pub p_n : heap'.n p ≡ some n
  pub n_p : heap'.p n ≡ some p
  pub e_n : heap'.n e ≡ none
  pub e_p : heap'.p e ≡ none
  pub e_h : heap'.h e ≡ none
  pub e_ops : heap'.ops e ≡ standalone_element_ops
  pub keep_n : (c : Addr) → same_addr e c ≡ false → same_addr p c ≡ false → SameN heap heap' c
  pub keep_p : (c : Addr) → same_addr e c ≡ false → same_addr n c ≡ false → SameP heap heap' c
  pub keep_owner : (c : Addr) → same_addr e c ≡ false → SameOwner heap heap' c

pub unlink-Without :
    (heap : Heap) (p e n : Addr)
    → same_addr e p ≡ false
    → same_addr e n ≡ false
    → Without heap (unlink p e n heap) p e n
unfolding unlink
unlink-Without heap p e n ep en = record {
  p_n = rw (ep, same_addr_refl p) refl;
  n_p = rw (en, same_addr_refl n) refl;
  e_n = rw (same_addr_refl e) refl;
  e_p = rw (same_addr_refl e) refl;
  e_h = rw (same_addr_refl e) refl;
  e_ops = rw (same_addr_refl e) refl;
  keep_n = λ c ec pc. rw (ec, pc) refl;
  keep_p = λ c ec nc. rw (ec, nc) refl;
  keep_owner = λ c ec. (rw ec refl, rw ec refl);
}

-- An address that is apart from a chain with `e` in it is so without it.
pub Apart-remove : (a e : Addr) (l r : List Addr) → Apart a (l ++ (e ∷ r)) → Apart a (l ++ r)
Apart-remove a e [] r (_, h) = h
Apart-remove a e (x ∷ l) r (hx, h) = (hx, Apart-remove a e l r h)

pub Distinct-remove :
    (l r : List Addr) (e : Addr) → Distinct (l ++ (e ∷ r)) → Distinct (l ++ r) × Apart e (l ++ r)
unfolding Distinct
Distinct-remove [] r e (a, d) = (d, a)
Distinct-remove (x ∷ l) r e (a, d) =
    let (rest, apart) = Distinct-remove l r e d in
    let (_, (xe, _)) = All-split (λ c. same_addr x c ≡ false) l (e ∷ r) a in
    ((Apart-remove x e l r a, rest), (same_addr_sym e x ∙ xe, apart))

pub Without-Links :
    (heap heap' : Heap) (l : List Addr) (p e n : Addr) (r : List Addr)
    → Without heap heap' p e n
    → Links heap (l ++ (p ∷ e ∷ n ∷ r))
    → Distinct (l ++ (p ∷ n ∷ r))
    → Apart e (l ++ (p ∷ n ∷ r))
    → Links heap' (l ++ (p ∷ n ∷ r))
unfolding Links
Without-Links heap heap' l p e n r w links d apart =
    let (_, _, (_, _, behind)) = Links-back heap l p (e ∷ n ∷ r) links in
    let (front, back) =
      Links-around heap heap' e l p n r (e ∷ n ∷ r) (w.keep_n) (w.keep_p) links behind d apart in
    Links-join heap' l p (n ∷ r) front (w.p_n, w.n_p, back)
