-- ===== src/Locking/Lists.antt =====
-- The two lists of a lock, and how a lock comes into one and out of it.
use osns.Prelude.{
  ℕ, ◌≡◌, refl, ap, sym, subst, arith, false, Bool-cases, inl, inr, List, [], ◌∷◌, ◌++◌, ◌==◌,
  length,
}
use osns.SimpleList.{Addr, element, same_addr}
use osns.SimpleList.Links.{Apart, All-split, All-join}
use osns.SimpleList.Pair.{Pair}
use osns.Locking.{Lock, Locking, set_lock}

unfoldable pub elements : List ℕ → List Addr
elements [] = []
elements (i ∷ is) = element i ∷ elements is

pub elements-append : (is js : List ℕ) → elements (is ++ js) ≡ elements is ++ elements js
unfolding elements
elements-append [] js = refl
elements-append (i ∷ is) js = ap (λ l. element i ∷ l) (elements-append is js)

pub length-elements : (is : List ℕ) → length (elements is) ≡ length is
unfolding elements
length-elements [] = refl
length-elements (i ∷ is) = omega (arith, length-elements is)

-- The lock is in neither list.
abbrev pub IsOut : ℕ → List ℕ → List ℕ → Type 0
IsOut i rs ws = Apart (element i) (elements rs) × Apart (element i) (elements ws)

-- The readers and writers of a lock are its lists, with their counts, and a lock that is not marked to be
-- in a list is in none.
pub record IsLocking (s : Locking) (rs ws : List ℕ) : Type 0 where
  pub lists : Pair s.heap s.readlocks s.writelocks (elements rs) (elements ws)
  pub readers_eq : s.readers ≡ length rs
  pub writers_eq : s.writers ≡ length ws
  pub listed : (i : ℕ) → (s.locks i).in_list ≡ false → IsOut i rs ws

-- A lock may change where it does not lose its mark, or is in no list.
pub set_lock-IsLocking :
    (s : Locking) (rs ws : List ℕ) (i : ℕ) (l : Lock)
    → IsLocking s rs ws
    → (l.in_list ≡ false → IsOut i rs ws)
    → IsLocking (set_lock i l s) rs ws
unfolding set_lock
set_lock-IsLocking s rs ws i l ok out = record {
  lists = ok.lists;
  readers_eq = ok.readers_eq;
  writers_eq = ok.writers_eq;
  listed = λ j h. elim (Bool-cases (i == j)) [
    | inl t ↦ let e : i ≡ j = ground arith in subst (λ (n : ℕ). IsOut n rs ws) e (out (rw t at h))
    | inr f ↦ ok.listed j (rw f at h)
  ];
}

-- Another lock than those of two lists.
pub Apart-insert :
    (j i : ℕ) (ys zs : List ℕ)
    → (i == j) ≡ false
    → Apart (element j) (elements (ys ++ zs))
    → Apart (element j) (elements (ys ++ (i ∷ zs)))
unfolding elements same_addr
Apart-insert j i ys zs ij h =
    let ji : (j == i) ≡ false = ground arith in
    let (at_y, at_z) =
      All-split (λ b. same_addr (element j) b ≡ false) (elements ys) (elements zs)
        (subst (λ l. Apart (element j) l) (elements-append ys zs) h) in
    subst (λ l. Apart (element j) l) (sym (elements-append ys (i ∷ zs)))
      (All-join (λ b. same_addr (element j) b ≡ false) (elements ys) (element i ∷ elements zs) at_y
        (ji, at_z))

pub Apart-without :
    (j i : ℕ) (ys zs : List ℕ)
    → Apart (element j) (elements (ys ++ (i ∷ zs)))
    → Apart (element j) (elements (ys ++ zs))
unfolding elements
Apart-without j i ys zs h =
    let (at_y, (_, at_z)) =
      All-split (λ b. same_addr (element j) b ≡ false) (elements ys) (element i ∷ elements zs)
        (subst (λ l. Apart (element j) l) (elements-append ys (i ∷ zs)) h) in
    subst (λ l. Apart (element j) l) (sym (elements-append ys zs))
      (All-join (λ b. same_addr (element j) b ≡ false) (elements ys) (elements zs) at_y at_z)
