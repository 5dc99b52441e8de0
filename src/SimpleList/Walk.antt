-- ===== src/SimpleList/Walk.antt =====
-- The walks along a list, and the tests of its ends.
use osns.Prelude.{
  ℕ, zero, suc, ◌+◌, ◌<◌, ◌≡◌, refl, subst, arith, none, some, List, [], ◌∷◌, ◌++◌, All,
  append_assoc, length, Option, Bool, true, false, if◌then◌else◌,
}
use osns.SshString.{done}
use osns.SimpleList.{Addr, head, tail, same_addr, Heap, system_tail_element_ops}
use osns.SimpleList.Steps.{get_next_element, get_next, get_element, step_next}
use osns.SimpleList.Users.{search_forw, search_list_element_forw, list_element_is_last}
use osns.SimpleList.Links.{Links-back, Links, Distinct, All-split, Distinct-back}
use osns.SimpleList.Insert.{IsOwned}
use osns.SimpleList.Lists.{IsList}
use osns.SimpleList.Take.{first, get_list_head-first}

-- The first address for which the condition holds.
unfoldable pub find : (Addr → Bool) → List Addr → Option Addr
find condition [] = none
find condition (x ∷ xs) = if condition x then some x else find condition xs

step_next-owned :
    (heap : Heap) (k : ℕ) (e n : Addr)
    → heap.n e ≡ some n
    → IsOwned heap k n
    → step_next e heap ≡ some (some n)
unfolding step_next get_element
step_next-owned heap k e n at_n own = rw (at_n, own.1) refl

step_next-tail :
    (heap : Heap) (e t : Addr)
    → heap.n e ≡ some t
    → heap.ops t ≡ system_tail_element_ops
    → step_next e heap ≡ some none
unfolding step_next get_element
step_next-tail heap e t at_n own = rw (at_n, own) refl

if-done :
    {A : Type 0} (b : Bool) (x y : A) → (if b then done x else done y) ≡ done (if b then x else y)
if-done true x y = refl
if-done false x y = refl

search_forw-Links :
    (fuel : ℕ) (condition : Addr → Bool) (heap : Heap) (k : ℕ) (x : Addr) (xs : List Addr)
    (t : Addr)
    → Links heap (x ∷ (xs ++ (t ∷ [])))
    → All (IsOwned heap k) xs
    → heap.ops t ≡ system_tail_element_ops
    → length xs + 1 < fuel
    → search_forw fuel condition (some x) heap ≡ done (find condition (x ∷ xs))
unfolding search_forw find Links
search_forw-Links zero condition heap k x xs t links owned end enough = absurd (omega arith)
search_forw-Links (suc zero) condition heap k x xs t links owned end enough = absurd (omega arith)
search_forw-Links (suc (suc fuel)) condition heap k x [] t links owned end enough =
    rw (step_next-tail heap x t (links.0) end) (if-done (condition x) (some x) none)
search_forw-Links (suc (suc fuel)) condition heap k x (y ∷ xs) t (at_n, at_p, links) (own, owned)
      end enough =
    rw
      (
        step_next-owned heap k x y at_n own,
        search_forw-Links (suc fuel) condition heap k y xs t links owned end (omega arith),
      )
      (if-done (condition x) (some x) (find condition (y ∷ xs)))

-- On a well-formed list the search from the front ends, and gives the first element for which the
-- condition holds, or NULL.
pub search_list_element_forw-find :
    (condition : Addr → Bool) (heap : Heap) (k : ℕ) (xs : List Addr)
    → IsList heap k xs
    → search_list_element_forw k condition heap ≡ done (find condition xs)
unfolding search_list_element_forw search_forw find first Links
search_list_element_forw-find condition heap k [] list =
    rw (get_list_head-first heap k [] list, list.count_eq) refl
search_list_element_forw-find condition heap k (x ∷ xs) list =
    let (_, _, links) = list.links in
    let run =
      search_forw-Links (length xs + 2) condition heap k x xs (tail k) links (list.owned.1)
        (list.ends.1) (omega arith) in
    let fuel : suc (length xs) + 1 ≡ length xs + 2 = omega arith in
    rw (get_list_head-first heap k (x ∷ xs) list, list.count_eq, fuel) run

-- `list_element_is_last` says of no element of a list that it is the last, not even of the last one.
list_element_is_last-never :
    (heap : Heap) (k : ℕ) (ys zs : List Addr) (e : Addr)
    → IsList heap k (ys ++ (e ∷ zs))
    → list_element_is_last e heap ≡ some false
unfolding list_element_is_last Distinct
list_element_is_last-never heap k ys zs e list =
    let (_, ((own_h, _), _)) = All-split (IsOwned heap k) ys (e ∷ zs) (list.owned) in
    let (at_e, _) = Distinct-back (head k ∷ ys) (e ∷ (zs ++ (tail k ∷ []))) (
      subst (λ t. Distinct (head k ∷ t)) (append_assoc ys (e ∷ zs) (tail k ∷ []))
        (list.distinct)) in
    let (_, (at_tail, _)) = All-split (λ c. same_addr e c ≡ false) zs (tail k ∷ []) at_e in
    rw (own_h, at_tail) refl

-- The step from an element of a list gives the element behind it, and NULL from the last one.
pub get_next_element-first :
    (heap : Heap) (k : ℕ) (ys zs : List Addr) (e : Addr)
    → IsList heap k (ys ++ (e ∷ zs))
    → get_next_element e heap ≡ some (first zs)
unfolding get_next_element get_next first Links
get_next_element-first heap k ys [] e list =
    let (_, ((_, own), _)) = All-split (IsOwned heap k) ys (e ∷ []) (list.owned) in
    let (at_n, _, _) = Links-back heap (head k ∷ ys) e (tail k ∷ []) (
      subst (λ t. Links heap (head k ∷ t)) (append_assoc ys (e ∷ []) (tail k ∷ [])) (list.links)) in
    rw (own, step_next-tail heap e (tail k) at_n (list.ends.1)) refl
get_next_element-first heap k ys (z ∷ zs) e list =
    let (_, ((_, own), (own_z, _))) = All-split (IsOwned heap k) ys (e ∷ z ∷ zs) (list.owned) in
    let (at_n, _, _) = Links-back heap (head k ∷ ys) e (z ∷ (zs ++ (tail k ∷ []))) (
      subst (λ t. Links heap (head k ∷ t)) (append_assoc ys (e ∷ z ∷ zs) (tail k ∷ []))
        (list.links)) in
    rw (own, step_next-owned heap k e z at_n own_z) refl
