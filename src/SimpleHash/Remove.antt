-- ===== src/SimpleHash/Remove.antt =====
-- Data that is removed from a table.
use osns.Prelude.{
  ℕ, ◌+◌, ◌%◌, ◌^◌, ◌<◌, ◌≡◌, refl, ap, sym, subst, ◌∙◌, arith, Bool, false, Bool-cases, inl, inr,
  none, some, List, [], ◌∷◌, ◌++◌, length, All, ◌==◌, if◌then◌else◌, Option-cases,
}
use mathlib.Core.Path.{fun_ext}
use native.Mathlib.Nat.{mod-lt}
use osns.SshString.{done}
use osns.SimpleList.{Addr, head, tail, element, same_addr, Heap}
use osns.SimpleList.Links.{Apart, All-split, All-join}
use osns.SimpleList.Insert.{IsOwned}
use osns.SimpleList.Lists.{IsList}
use osns.SimpleList.Users.{remove_list_element}
use osns.SimpleList.Take.{remove_list_element-Frame}
use osns.SimpleList.Walk.{find}
use osns.SimpleList.Others.{others-Apart, IsElement, All-map, other_owner}
use osns.SimpleHash.{Group, clear_data, move_from_hash, remove_found, remove_data_from_hash}
use osns.SimpleHash.Table.{InSlot, IsTable, holds, slot-some, lookup_simple_hash-find}
use osns.SimpleHash.Change.{update, set_data-IsTable, change-IsTable}

-- The list without the first element for which the condition holds.
unfoldable pub remove_first : (Addr → Bool) → List Addr → List Addr
remove_first c [] = []
remove_first c (x ∷ xs) = if c x then xs else x ∷ remove_first c xs

remove_first-none : (c : Addr → Bool) (xs : List Addr) → find c xs ≡ none → remove_first c xs ≡ xs
unfolding find remove_first
remove_first-none c [] h = refl
remove_first-none c (x ∷ xs) h = elim (Bool-cases (c x)) [
  | inl t ↦ let h' = rw t at h in cc
  | inr f ↦ rw (f, remove_first-none c xs (rw f at h)) refl
]

-- Where the element is that is found.
record Found (c : Addr → Bool) (xs : List Addr) (e : Addr) : Type 0 where
  before : List Addr
  behind : List Addr
  whole_eq : xs ≡ before ++ (e ∷ behind)
  rest_eq : remove_first c xs ≡ before ++ behind

find-Found : (c : Addr → Bool) (xs : List Addr) (e : Addr) → find c xs ≡ some e → Found c xs e
unfolding find remove_first
find-Found c [] e h = cc
find-Found c (x ∷ xs) e h = elim (Bool-cases (c x)) [
  | inl t ↦
      let x_eq : x ≡ e = cc in
      record { before = []; behind = xs; whole_eq = rw x_eq refl; rest_eq = rw t refl }
  | inr f ↦
      let r = find-Found c xs e (rw f at h) in
      record {
        before = x ∷ r.before;
        behind = r.behind;
        whole_eq = ap (λ l. x ∷ l) (r.whole_eq);
        rest_eq = rw f (ap (λ l. x ∷ l) (r.rest_eq));
      }
]

update_same : (b : ℕ → List Addr) (s : ℕ) → update b s (b s) ≡ b
update_same b s = fun_ext (λ j. elim (Bool-cases (s == j)) [
  | inl t ↦ let e : s ≡ j = ground arith in rw (t, e) refl
  | inr f ↦ rw f refl
])

-- An element of a bucket is taken out of the table.
pub take-IsTable :
    (h : ℕ → ℕ) (g : Group) (base : ℕ) (b : ℕ → List Addr) (s : ℕ) (ys zs : List Addr) (e : Addr)
    → IsTable h g base b
    → s < g.len
    → b s ≡ ys ++ (e ∷ zs)
    → length (b s) < 2 ^ 64
    → (heap' : Heap) × (remove_list_element (some e) g.heap ≡ some heap')
      × IsTable h (record g { heap = heap' }) base (update b s (ys ++ zs))
      × IsElement e
      × InSlot h g s e
      × ((j : ℕ) → j < g.len → Apart e (update b s (ys ++ zs) j))
take-IsTable h g base b s ys zs e table s_lt whole small =
    let k = base + s in
    let list = subst (IsList (g.heap) k) whole (table.lists s s_lt) in
    let (heap', run, shorter, _, _, frame) =
      remove_list_element-Frame (g.heap) k ys zs e list (rw whole at small) in
    let (owned_y, (e_owned, owned_z)) = All-split (IsOwned (g.heap) k) ys (e ∷ zs) (list.owned) in
    let (el_y, (e_element, el_z)) =
      All-split IsElement ys (e ∷ zs) (subst (All IsElement) whole (table.elements s s_lt)) in
    let (in_y, (e_in, in_z)) =
      All-split (InSlot h g s) ys (e ∷ zs)
        (subst (All (InSlot h g s)) whole (table.placed s s_lt)) in
    let elements = All-join IsElement ys zs el_y el_z in
    let apart : (j : ℕ) → j < g.len → (s == j) ≡ false → Apart e (b j) = λ j lt sj.
      let kj : (base + j == k) ≡ false = ground arith in
      All-map (IsOwned (g.heap) (base + j)) (λ c. same_addr e c ≡ false)
        (λ c o. other_owner (g.heap) k (base + j) e c kj e_owned o) (b j)
        ((table.lists j lt).owned) in
    (
      heap',
      run,
      change-IsTable h g base b table s heap' (ys ++ zs) (ys ++ zs) e s_lt frame
          (All-join (IsOwned (g.heap) k) ys zs owned_y owned_z) elements e_element apart shorter
          elements (All-join (InSlot h g s) ys zs in_y in_z),
      e_element,
      e_in,
      λ j lt. elim (Bool-cases (s == j)) [
        | inl t ↦ rw t (others-Apart (g.heap) k ys zs e list)
        | inr f ↦ rw f (apart j lt f)
      ],
    )

clear_data-IsTable :
    (h : ℕ → ℕ) (g : Group) (base : ℕ) (b : ℕ → List Addr) (e : Addr)
    → IsTable h g base b
    → IsElement e
    → ((j : ℕ) → j < g.len → Apart e (b j))
    → IsTable h (clear_data h e g) base b
unfolding clear_data
clear_data-IsTable h g base b (head k) table (i, at_e) apart = table
clear_data-IsTable h g base b (tail k) table (i, at_e) apart = table
clear_data-IsTable h g base b (element i) table _ apart =
    set_data-IsTable h g base b table i 0 apart

-- Data is removed from a table: the call ends, and the bucket of its hash has lost the first element with
-- the data, or nothing where no element has it. The other buckets stay.
pub remove_data_from_hash-IsTable :
    (h : ℕ → ℕ) (g : Group) (base : ℕ) (b : ℕ → List Addr) (d : ℕ)
    → IsTable h g base b
    → length (b (h d % g.len)) < 2 ^ 64
    → (g' : Group) × (remove_data_from_hash h d g ≡ done g')
      × IsTable h g' base (update b (h d % g.len) (remove_first (holds g d) (b (h d % g.len))))
unfolding remove_data_from_hash remove_found move_from_hash
remove_data_from_hash-IsTable h g base b d table small =
    let s = h d % g.len in
    let s_lt = mod-lt (h d) (table.some_buckets) in
    let look = lookup_simple_hash-find h g base b d table in
    elim (Option-cases (find (holds g d) (b s))) [
      | inl n ↦ (
        g,
        rw (remove_data_from_hash, look, n) refl,
        subst (IsTable h g base)
            (sym (update_same b s) ∙ ap (update b s) (sym (remove_first-none (holds g d) (b s) n)))
            table,
      )
      | inr (e, found) ↦
          let at = find-Found (holds g d) (b s) e found in
          let (heap', run, shorter, e_element, (v, at_e, _), apart) =
            take-IsTable h g base b s (at.before) (at.behind) e table s_lt (at.whole_eq) small in
          (
            clear_data h e (record g { heap = heap' }),
            rw
                (
                  remove_data_from_hash,
                  look,
                  found,
                  remove_found,
                  move_from_hash,
                  at_e,
                  slot-some h g base b (h v) table,
                  run,
                )
                refl,
            subst (λ l. IsTable h (clear_data h e (record g { heap = heap' })) base (update b s l))
                (sym (at.rest_eq)) (clear_data-IsTable h _ base _ e shorter e_element apart),
          )
    ]
