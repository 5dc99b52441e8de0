-- ===== src/Channels/Members.antt =====
-- Whether an address is in a list.
use osns.Prelude.{
  ◌≡◌, refl, ap, Bool, true, false, Bool-cases, inl, inr, List, [], ◌∷◌, ◌++◌, if◌then◌else◌, sym,
}
use osns.SimpleList.{Addr, same_addr}
use osns.SimpleList.Links.{Apart, same_addr_refl, same_addr→eq}

unfoldable pub contains : Addr → List Addr → Bool
contains a [] = false
contains a (x ∷ xs) = if same_addr a x then true else contains a xs

-- `a` stands between `before` and `behind`.
pub record Split (a : Addr) (xs : List Addr) : Type 0 where
  pub before : List Addr
  pub behind : List Addr
  pub whole_eq : xs ≡ before ++ (a ∷ behind)

pub contains-Split : (a : Addr) (xs : List Addr) → contains a xs ≡ true → Split a xs
unfolding contains
contains-Split a [] h = cc
contains-Split a (x ∷ xs) h = elim (Bool-cases (same_addr a x)) [
  | inl t ↦ record {
    before = [];
    behind = xs;
    whole_eq = ap (λ c. c ∷ xs) (sym (same_addr→eq a x t));
  }
  | inr f ↦
      let rest = contains-Split a xs (rw f at h) in
      record {
        before = x ∷ rest.before;
        behind = rest.behind;
        whole_eq = ap (λ l. x ∷ l) (rest.whole_eq);
      }
]

pub contains-Apart : (a : Addr) (xs : List Addr) → contains a xs ≡ false → Apart a xs
unfolding contains
contains-Apart a [] h = tt
contains-Apart a (x ∷ xs) h = elim (Bool-cases (same_addr a x)) [
  | inl t ↦ let h' = rw t at h in cc
  | inr f ↦ (f, contains-Apart a xs (rw f at h))
]

pub Apart-contains : (a : Addr) (xs : List Addr) → Apart a xs → contains a xs ≡ false
unfolding contains
Apart-contains a [] h = refl
Apart-contains a (x ∷ xs) (f, h) = rw f (Apart-contains a xs h)

-- Another address is in the list with an element exactly if it is in the list without it.
pub contains-other :
    (a e : Addr) (ys zs : List Addr)
    → same_addr a e ≡ false
    → contains a (ys ++ (e ∷ zs)) ≡ contains a (ys ++ zs)
unfolding contains
contains-other a e [] zs f = rw f refl
contains-other a e (y ∷ ys) zs f = rw (contains-other a e ys zs f) refl

pub contains-head : (a : Addr) (xs : List Addr) → contains a (a ∷ xs) ≡ true
unfolding contains
contains-head a xs = rw (same_addr_refl a) refl

pub contains-tail :
    (a x : Addr) (xs : List Addr) → contains a xs ≡ true → contains a (x ∷ xs) ≡ true
unfolding contains
contains-tail a x xs h = elim (Bool-cases (same_addr a x)) [ inl t ↦ rw t refl | inr f ↦ rw f h ]

pub contains-end :
    (a x : Addr) (xs : List Addr)
    → contains a (xs ++ (x ∷ [])) ≡ (if contains a xs then true else same_addr a x)
unfolding contains
contains-end a x [] = elim (Bool-cases (same_addr a x)) [ inl t ↦ rw t refl | inr f ↦ rw f refl ]
contains-end a x (y ∷ ys) = elim (Bool-cases (same_addr a y)) [
  | inl t ↦ rw t refl
  | inr f ↦ rw f (contains-end a x ys)
]
