-- ===== src/SimpleHash/Change.antt =====
-- Tables of which one bucket changes.
use osns.Prelude.{
  ℕ, ◌+◌, ◌<◌, ◌≡◌, refl, subst, ◌∙◌, arith, false, Bool-cases, inl, inr, Option, List, All, ◌==◌,
  if◌then◌else◌,
}
use osns.SimpleList.{Addr, head, tail, element, same_addr, Heap, init_list_element}
use osns.SimpleList.Links.{Apart}
use osns.SimpleList.Insert.{IsOwned}
use osns.SimpleList.Lists.{IsList}
use osns.SimpleList.Frame.{Frame}
use osns.SimpleList.Others.{
  IsElement, All-map, All-both, Apart-ring, other_rings, Frame-IsList, init_other-IsList,
}
use osns.SimpleHash.{Group, set_data, stored}
use osns.SimpleHash.Table.{InSlot, IsTable}

-- The bucket `s` has another list.
abbrev pub update : (ℕ → List Addr) → ℕ → List Addr → ℕ → List Addr
update b s xs j = if s == j then xs else b j

pub stored-heap :
    (g : Group) (heap : Heap) (a : Addr) → stored a (record g { heap = heap }) ≡ stored a g
unfolding stored
stored-heap g heap (head k) = refl
stored-heap g heap (tail k) = refl
stored-heap g heap (element i) = refl

stored-set_data :
    (g : Group) (i d : ℕ) (a : Addr)
    → same_addr (element i) a ≡ false
    → stored a (set_data i d g) ≡ stored a g
unfolding stored set_data same_addr
stored-set_data g i d (head k) h = refl
stored-set_data g i d (tail k) h = refl
stored-set_data g i d (element j) h = rw h refl

module _ (h : ℕ → ℕ) (g : Group) (base : ℕ) (b : ℕ → List Addr) (table : IsTable h g base b) where
  -- A hash element that is in no bucket may change.
  pub set_data-IsTable :
      (i d : ℕ)
      → ((j : ℕ) → j < g.len → Apart (element i) (b j))
      → IsTable h (set_data i d g) base b
  unfolding set_data
  set_data-IsTable i d apart = record {
    hash_eq = table.hash_eq;
    some_buckets = table.some_buckets;
    lists = table.lists;
    elements = table.elements;
    placed = λ j lt.
        All-map (λ a. (same_addr (element i) a ≡ false) × InSlot h g j a)
          (InSlot h (set_data i d g) j)
          (λ a (ia, (v, at_a, at_j)). (v, stored-set_data g i d a ia ∙ at_a, at_j)) (b j)
          (All-both _ (InSlot h g j) (b j) (apart j lt) (table.placed j lt));
  }

  pub heap-InSlot :
      (heap : Heap) (s : ℕ) (xs : List Addr)
      → All (InSlot h g s) xs
      → All (InSlot h (record g { heap = heap }) s) xs
  heap-InSlot heap s xs =
      All-map (InSlot h g s) (InSlot h (record g { heap = heap }) s)
        (λ a (v, at_a, at_s). (v, stored-heap g heap a ∙ at_a, at_s)) xs

  pub init-IsTable :
      (o : Option ℕ) (e : Addr)
      → IsElement e
      → ((j : ℕ) → j < g.len → Apart e (b j))
      → IsTable h (record g { heap = init_list_element e o g.heap }) base b
  init-IsTable o e is_element apart = record {
    hash_eq = table.hash_eq;
    some_buckets = table.some_buckets;
    lists = λ j lt.
        init_other-IsList (g.heap) o (base + j) (b j) e
          (Apart-ring e (base + j) (b j) is_element (apart j lt)) (table.lists j lt);
    elements = table.elements;
    placed = λ j lt. heap-InSlot _ j (b j) (table.placed j lt);
  }

  -- A bucket gets the list `xs`, where nothing but its header, the ring of `kept` and `e` change.
  module _ (s : ℕ) (heap' : Heap) (kept xs : List Addr) (e : Addr) (s_lt : s < g.len)
      (frame : Frame (g.heap) heap' (base + s) kept e)
      (owned : All (IsOwned (g.heap) (base + s)) kept) (kept_elements : All IsElement kept)
      (is_element : IsElement e) (apart : (j : ℕ) → j < g.len → (s == j) ≡ false → Apart e (b j))
      (list : IsList heap' (base + s) xs) (elements : All IsElement xs)
      (placed : All (InSlot h g s) xs) where
    other_bucket : (j : ℕ) → j < g.len → (s == j) ≡ false → IsList heap' (base + j) (b j)
    other_bucket j lt sj =
        let list_j = table.lists j lt in
        let kj : (base + s == base + j) ≡ false = ground arith in
        Frame-IsList (g.heap) heap' (base + j) (base + s) kept (b j) e frame kj
          (Apart-ring e (base + j) (b j) is_element (apart j lt sj))
          (other_rings (g.heap) (base + j) (base + s) kept (b j) kj owned kept_elements
            (list_j.owned) (table.elements j lt))
          list_j

    -- What holds of the new list in its bucket, and of the other lists in theirs, holds of all.
    everywhere :
        (P : ℕ → List Addr → Type 0)
        → P s xs
        → ((j : ℕ) → j < g.len → (s == j) ≡ false → P j (b j))
        → (j : ℕ) → j < g.len
        → P j (update b s xs j)
    everywhere P here there j lt = elim (Bool-cases (s == j)) [
      | inl t ↦ let e : s ≡ j = ground arith in rw t (subst (λ (n : ℕ). P n xs) e here)
      | inr f ↦ rw f (there j lt f)
    ]

    pub change-IsTable : IsTable h (record g { heap = heap' }) base (update b s xs)
    change-IsTable = record {
      hash_eq = table.hash_eq;
      some_buckets = table.some_buckets;
      lists = everywhere (λ j l. IsList heap' (base + j) l) list other_bucket;
      elements = everywhere (λ j l. All IsElement l) elements (λ j lt _. table.elements j lt);
      placed =
          everywhere (λ j l. All (InSlot h (record g { heap = heap' }) j) l)
            (heap-InSlot heap' s xs placed)
            (λ j lt _. heap-InSlot heap' j (b j) (table.placed j lt));
    }
