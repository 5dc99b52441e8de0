-- ===== src/SimpleList/Links.antt =====
-- Chains of addresses in which neighbours point at each other, and what writes elsewhere leave of them.
use osns.Prelude.{◌≡◌, refl, arith, ap, ◌∙◌, true, false, some, List, [], ◌∷◌, ◌++◌, All, ==_refl}
use osns.SimpleList.{Addr, head, tail, element, same_addr, Heap}

-- The neighbours of a chain point at each other.
unfoldable pub Links : Heap → List Addr → Type 0
Links heap [] = Unit
Links heap (u ∷ []) = Unit
Links heap (u ∷ v ∷ l) = ((heap.n u) ≡ some v) × ((heap.p v) ≡ some u) × Links heap (v ∷ l)

-- `a` is none of the addresses, and no address stands twice.
abbrev pub Apart : Addr → List Addr → Type 0
Apart a l = All (λ b. same_addr a b ≡ false) l

unfoldable pub Distinct : List Addr → Type 0
Distinct [] = Unit
Distinct (a ∷ l) = Apart a l × Distinct l

pub same_addr_refl : (a : Addr) → same_addr a a ≡ true
unfolding same_addr
same_addr_refl (head k) = ==_refl k
same_addr_refl (tail k) = ==_refl k
same_addr_refl (element k) = ==_refl k

pub same_addr_sym : (a b : Addr) → same_addr a b ≡ same_addr b a
unfolding same_addr
same_addr_sym (head k) (head j) = ground arith
same_addr_sym (head k) (tail j) = refl
same_addr_sym (head k) (element j) = refl
same_addr_sym (tail k) (head j) = refl
same_addr_sym (tail k) (tail j) = ground arith
same_addr_sym (tail k) (element j) = refl
same_addr_sym (element k) (head j) = refl
same_addr_sym (element k) (tail j) = refl
same_addr_sym (element k) (element j) = ground arith

-- Whether two stores agree on a field of an address.
abbrev pub SameN : Heap → Heap → Addr → Type 0
SameN heap heap' a = (heap'.n a) ≡ (heap.n a)

abbrev pub SameP : Heap → Heap → Addr → Type 0
SameP heap heap' a = (heap'.p a) ≡ (heap.p a)

-- A chain stays where no pointer along it changes.
pub Links-cons :
    (heap heap' : Heap) (u : Addr) (l : List Addr)
    → Links heap (u ∷ l)
    → All (SameN heap heap') (u ∷ l)
    → All (SameP heap heap') l
    → Links heap' (u ∷ l)
unfolding Links
Links-cons heap heap' u [] links ns ps = tt
Links-cons heap heap' u (v ∷ l) (n, p, links) (hn, ns) (hp, ps) =
    (hn ∙ n, hp ∙ p, Links-cons heap heap' v l links ns ps)

pub Links-snoc :
    (heap heap' : Heap) (l : List Addr) (p : Addr)
    → Links heap (l ++ (p ∷ []))
    → All (SameN heap heap') l
    → All (SameP heap heap') (l ++ (p ∷ []))
    → Links heap' (l ++ (p ∷ []))
unfolding Links
Links-snoc heap heap' [] p links ns ps = tt
Links-snoc heap heap' (u ∷ []) p (n, q, links) (hn, ns) (hu, ps) = (hn ∙ n, ps.0 ∙ q, tt)
Links-snoc heap heap' (u ∷ v ∷ l) p (n, q, links) (hn, ns) (hu, ps) =
    (hn ∙ n, ps.0 ∙ q, Links-snoc heap heap' (v ∷ l) p links ns ps)

-- A chain is cut at an address, and two chains with the same end are joined.
pub Links-front :
    (heap : Heap) (l : List Addr) (p : Addr) (r : List Addr)
    → Links heap (l ++ (p ∷ r))
    → Links heap (l ++ (p ∷ []))
unfolding Links
Links-front heap [] p r links = tt
Links-front heap (u ∷ []) p r (n, q, links) = (n, q, tt)
Links-front heap (u ∷ v ∷ l) p r (n, q, links) = (n, q, Links-front heap (v ∷ l) p r links)

pub Links-back :
    (heap : Heap) (l : List Addr) (p : Addr) (r : List Addr)
    → Links heap (l ++ (p ∷ r))
    → Links heap (p ∷ r)
unfolding Links
Links-back heap [] p r links = links
Links-back heap (u ∷ []) p r (n, q, links) = links
Links-back heap (u ∷ v ∷ l) p r (n, q, links) = Links-back heap (v ∷ l) p r links

pub Links-join :
    (heap : Heap) (l : List Addr) (p : Addr) (r : List Addr)
    → Links heap (l ++ (p ∷ []))
    → Links heap (p ∷ r)
    → Links heap (l ++ (p ∷ r))
unfolding Links
Links-join heap [] p r front back = back
Links-join heap (u ∷ []) p r (n, q, front) back = (n, q, back)
Links-join heap (u ∷ v ∷ l) p r (n, q, front) back = (n, q, Links-join heap (v ∷ l) p r front back)

-- What `Distinct` says of the parts of a chain.
pub All-split : (P : Addr → Type 0) (l r : List Addr) → All P (l ++ r) → All P l × All P r
All-split P [] r h = (tt, h)
All-split P (x ∷ l) r (hx, h) = let (a, b) = All-split P l r h in ((hx, a), b)

pub All-join : (P : Addr → Type 0) (l r : List Addr) → All P l → All P r → All P (l ++ r)
All-join P [] r h h' = h'
All-join P (x ∷ l) r (hx, h) h' = (hx, All-join P l r h h')

pub Distinct-back : (l r : List Addr) → Distinct (l ++ r) → Distinct r
unfolding Distinct
Distinct-back [] r d = d
Distinct-back (x ∷ l) r (a, d) = Distinct-back l r d

-- An address of the second part is apart from the first.
pub Distinct-front : (l r : List Addr) (p : Addr) → Distinct (l ++ (p ∷ r)) → Apart p l
unfolding Distinct
Distinct-front [] r p d = tt
Distinct-front (x ∷ l) r p (a, d) = (
  same_addr_sym p x ∙ (All-split (λ b. same_addr x b ≡ false) l (p ∷ r) a).1.0,
  Distinct-front l r p d,
)

pub same_addr→eq : (a b : Addr) → same_addr a b ≡ true → a ≡ b
unfolding same_addr
same_addr→eq (head k) (head j) h = ap head (ground arith)
same_addr→eq (head k) (tail j) h = cc
same_addr→eq (head k) (element j) h = cc
same_addr→eq (tail k) (head j) h = cc
same_addr→eq (tail k) (tail j) h = ap tail (ground arith)
same_addr→eq (tail k) (element j) h = cc
same_addr→eq (element k) (head j) h = cc
same_addr→eq (element k) (tail j) h = cc
same_addr→eq (element k) (element j) h = ap element (ground arith)
