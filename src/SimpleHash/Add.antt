-- ===== src/SimpleHash/Add.antt =====
-- Data that is added to a table.
use osns.Prelude.{
  ℕ, ◌+◌, ◌%◌, ◌^◌, ◌<◌, ◌≡◌, refl, ap, ◌∙◌, arith, Bool, true, Bool-cases, inl, inr, none, some,
  List, [], ◌∷◌, ◌++◌, length, ◌==◌, ==_refl, Option-cases,
}
use native.Mathlib.Nat.{mod-lt}
use osns.SshString.{done}
use osns.SimpleList.{Addr, element, Heap, init_list_element}
use osns.SimpleList.Links.{Apart, All-join}
use osns.SimpleList.Users.{add_list_element_last}
use osns.SimpleList.Add.{add_list_element_last-Frame}
use osns.SimpleList.Walk.{find}
use osns.SimpleList.Others.{IsElement, Apart-ring}
use osns.SimpleHash.{
  Group, set_data, stored, insert_in_hash, create_hash_element, add_data_to_hash,
  lookup_simple_hash,
}
use osns.SimpleHash.Table.{InSlot, IsTable, holds, slot-some, lookup_simple_hash-find}
use osns.SimpleHash.Change.{update, set_data-IsTable, init-IsTable, change-IsTable}

-- An element that holds a value and is in no bucket comes to the end of the bucket of the value.
pub add_last-IsTable :
    (h : ℕ → ℕ) (g : Group) (base : ℕ) (b : ℕ → List Addr) (e : Addr) (d : ℕ)
    → IsTable h g base b
    → IsElement e
    → stored e g ≡ some d
    → ((j : ℕ) → j < g.len → Apart e (b j))
    → length (b (h d % g.len)) + 1 < 2 ^ 64
    → (heap' : Heap) × (add_list_element_last (base + h d % g.len) e g.heap ≡ some heap')
      × IsTable h
          (record g { heap = heap' })
          base
          (update b (h d % g.len) (b (h d % g.len) ++ (e ∷ [])))
add_last-IsTable h g base b e d table is_element at_e apart small =
    let s = h d % g.len in
    let s_lt = mod-lt (h d) (table.some_buckets) in
    let list = table.lists s s_lt in
    let (heap', run, grown, frame) =
      add_list_element_last-Frame (g.heap) (base + s) (b s) e list
        (Apart-ring e (base + s) (b s) is_element (apart s s_lt)) small in
    (
      heap',
      run,
      change-IsTable h g base b table s heap' (b s) (b s ++ (e ∷ [])) e s_lt frame (list.owned)
          (table.elements s s_lt) is_element (λ j lt _. apart j lt) grown
          (All-join IsElement (b s) (e ∷ []) (table.elements s s_lt) (is_element, tt))
          (All-join (InSlot h g s) (b s) (e ∷ []) (table.placed s s_lt) ((d, at_e, refl), tt)),
    )

-- So does one that is inserted.
insert-IsTable :
    (h : ℕ → ℕ) (g : Group) (base : ℕ) (b : ℕ → List Addr) (e : Addr) (d : ℕ)
    → IsTable h g base b
    → IsElement e
    → stored e g ≡ some d
    → ((j : ℕ) → j < g.len → Apart e (b j))
    → length (b (h d % g.len)) + 1 < 2 ^ 64
    → (heap' : Heap) × (insert_in_hash h e g ≡ some (record g { heap = heap' }))
      × IsTable h
          (record g { heap = heap' })
          base
          (update b (h d % g.len) (b (h d % g.len) ++ (e ∷ [])))
unfolding insert_in_hash
insert-IsTable h g base b e d table is_element at_e apart small =
    let (heap', run, grown) = add_last-IsTable h g base b e d table is_element at_e apart small in
    (heap', rw (at_e, slot-some h g base b (h d) table, run) refl, grown)

-- Data is added to a table, in an element that `malloc` returns and that is in no bucket: it comes to the
-- end of the bucket of its hash, the other buckets stay, and the element holds the data.
pub add_data_to_hash-IsTable :
    (h : ℕ → ℕ) (g : Group) (base : ℕ) (b : ℕ → List Addr) (i d : ℕ)
    → IsTable h g base b
    → ((j : ℕ) → j < g.len → Apart (element i) (b j))
    → length (b (h d % g.len)) + 1 < 2 ^ 64
    → (g' : Group) × (add_data_to_hash h (some i) d g ≡ some g')
      × IsTable h g' base (update b (h d % g.len) (b (h d % g.len) ++ (element i ∷ [])))
      × (stored (element i) g' ≡ some d)
      × (g'.len ≡ g.len)
unfolding add_data_to_hash create_hash_element set_data stored
add_data_to_hash-IsTable h g base b i d table apart small =
    let g1 = set_data i 0 g in
    let t1 = set_data-IsTable h g base b table i 0 apart in
    let g2 : Group = record g1 { heap = init_list_element (element i) none g.heap } in
    let t2 = init-IsTable h g1 base b t1 none (element i) (i, refl) apart in
    let g3 = set_data i d g2 in
    let t3 = set_data-IsTable h g2 base b t2 i d apart in
    let g4 : Group = record g3 { heap = init_list_element (element i) none g2.heap } in
    let t4 = init-IsTable h g3 base b t3 none (element i) (i, refl) apart in
    let (heap', run, grown) =
      insert-IsTable h g4 base b (element i) d t4 (i, refl) (rw (==_refl i) refl) apart small in
    (record g4 { heap = heap' }, run, grown, rw (==_refl i) refl, refl)

find-end :
    (c : Addr → Bool) (xs : List Addr) (e : Addr)
    → c e ≡ true
    → (x : Addr) × (find c (xs ++ (e ∷ [])) ≡ some x) × (c x ≡ true)
unfolding find
find-end c [] e h = (e, rw h refl, h)
find-end c (x ∷ xs) e h = elim (Bool-cases (c x)) [
  | inl t ↦ (x, rw t refl, t)
  | inr f ↦ let (y, found, cy) = find-end c xs e h in (y, rw f found, cy)
]

holds→stored : (g : Group) (d : ℕ) (a : Addr) → holds g d a ≡ true → stored a g ≡ some d
unfolding holds
holds→stored g d a t = elim (Option-cases (stored a g)) [
  | inl n ↦ let t' = rw (holds, n) at t in cc
  | inr (v, e) ↦
      let t' : (v == d) ≡ true = rw (holds, e) at t in e ∙ ap (λ (n : ℕ). some n) (ground arith)
]

stored→holds : (g : Group) (d : ℕ) (a : Addr) → stored a g ≡ some d → holds g d a ≡ true
unfolding holds
stored→holds g d a e = rw (holds, e) (==_refl d)

-- Data that was added to a table is found in it.
pub lookup-add :
    (h : ℕ → ℕ) (g : Group) (base : ℕ) (b : ℕ → List Addr) (i d : ℕ)
    → IsTable h g base b
    → ((j : ℕ) → j < g.len → Apart (element i) (b j))
    → length (b (h d % g.len)) + 1 < 2 ^ 64
    → (g' : Group) × (e : Addr) × (add_data_to_hash h (some i) d g ≡ some g')
      × (lookup_simple_hash h d g' ≡ done (some e))
      × (stored e g' ≡ some d)
unfolding holds
lookup-add h g base b i d table apart small =
    let (g', run, grown, at_i, same_len) =
      add_data_to_hash-IsTable h g base b i d table apart small in
    let s = h d % g.len in
    let (e, found, e_holds) =
      find-end (holds g' d) (b s) (element i) (stored→holds g' d (element i) at_i) in
    let slot_eq : h d % g'.len ≡ s = rw same_len refl in
    let look = lookup_simple_hash-find h g' base _ d grown in
    let here : update b s (b s ++ (element i ∷ [])) s ≡ b s ++ (element i ∷ []) =
      rw (==_refl s) refl in
    (
      g',
      e,
      run,
      look
          ∙ ap done (
              ap (λ n. find (holds g' d) (update b s (b s ++ (element i ∷ [])) n)) slot_eq
              ∙ ap (find (holds g' d)) here
              ∙ found),
      holds→stored g' d e e_holds,
    )
