-- ===== src/SimpleHash/Free.antt =====
-- What a table that is freed hands back.
use osns.Prelude.{
  ℕ, zero, suc, ◌+◌, ◌^◌, ◌≤◌, ◌<◌, ◌≡◌, refl, ap, subst, ◌∙◌, arith, true, false, Bool-cases, inl,
  inr, Option, none, some, List, [], ◌∷◌, ◌++◌, length, ◌==◌, ==_refl, if◌then◌else◌, ◌&&◌, not,
}
use osns.SshString.{done}
use osns.SimpleList.{Addr, Heap}
use osns.SimpleList.Users.{remove_list_head, remove_list_element}
use osns.SimpleList.Lists.{IsList}
use osns.SimpleList.Take.{get_list_head-first, first}
use osns.SimpleHash.{Group, stored, free_bucket, free_buckets, free_group}
use osns.SimpleHash.Table.{IsTable}
use osns.SimpleHash.Change.{update, stored-heap}
use osns.SimpleHash.Remove.{take-IsTable}

unfoldable pub with_data : Option ℕ → List ℕ → List ℕ
with_data none rest = rest
with_data (some v) rest = if v == 0 then rest else v ∷ rest

-- The data of the elements, without NULL.
unfoldable pub freed_of : Group → List Addr → List ℕ
freed_of g [] = []
freed_of g (x ∷ xs) = with_data (stored x g) (freed_of g xs)

freed_of-heap :
    (g : Group) (heap : Heap) (xs : List Addr)
    → freed_of (record g { heap = heap }) xs ≡ freed_of g xs
unfolding freed_of
freed_of-heap g heap [] = refl
freed_of-heap g heap (x ∷ xs) = rw (stored-heap g heap x, freed_of-heap g heap xs) refl

hand_over :
    (v : ℕ) (rest : List ℕ)
    → (if true && not (v == 0) then v ∷ rest else rest) ≡ (if v == 0 then rest else v ∷ rest)
hand_over v rest = elim (Bool-cases (v == 0)) [ inl t ↦ rw t refl | inr f ↦ rw f refl ]

-- A bucket is emptied, and the others stay.
free_bucket-IsTable :
    (h : ℕ → ℕ) (fuel : ℕ) (g : Group) (base : ℕ) (b : ℕ → List Addr) (s : ℕ) (xs : List Addr)
    → IsTable h g base b
    → s < g.len
    → b s ≡ xs
    → length xs < 2 ^ 64
    → length xs < fuel
    → (heap' : Heap) × (free_bucket fuel true (base + s) g
        ≡ done (freed_of g xs, record g { heap = heap' }))
      × (b' : ℕ → List Addr) × IsTable h (record g { heap = heap' }) base b'
      × ((j : ℕ) → (s == j) ≡ false → b' j ≡ b j)
unfolding free_bucket freed_of remove_list_head remove_list_element first with_data
free_bucket-IsTable h zero g base b s xs table s_lt e small enough = absurd (omega arith)
free_bucket-IsTable h (suc fuel) g base b s [] table s_lt e small enough =
    let list = subst (λ l. IsList (g.heap) (base + s) l) e (table.lists s s_lt) in
    let no_head : remove_list_head (base + s) (g.heap) ≡ some (none, g.heap) =
      rw (remove_list_head, get_list_head-first (g.heap) (base + s) [] list) refl in
    (g.heap, rw (free_bucket, no_head) refl, b, table, λ j _. refl)
free_bucket-IsTable h (suc fuel) g base b s (x ∷ xs) table s_lt e small enough =
    let k = base + s in
    let list = subst (λ l. IsList (g.heap) k l) e (table.lists s s_lt) in
    let (heap1, run, shorter, _, (v, at_x, _), _) =
      take-IsTable h g base b s [] xs x table s_lt e (rw e small) in
    let g1 : Group = record g { heap = heap1 } in
    let (heap', rest, b', final, others) =
      free_bucket-IsTable h fuel g1 base (update b s xs) s xs shorter s_lt (rw (==_refl s) refl)
        (omega arith) (omega arith) in
    let step : remove_list_head k (g.heap) ≡ some (some x, heap1) =
      rw (remove_list_head, get_list_head-first (g.heap) k (x ∷ xs) list, run) refl in
    (
      heap',
      rw (free_bucket, step, at_x, rest, freed_of-heap g heap1 xs)
          (ap (λ l. done (l, record g { heap = heap' })) (hand_over v (freed_of g xs))),
      b',
      final,
      λ j sj. others j sj ∙ rw sj refl,
    )

-- The data of `n` buckets, from the one with the number `s` on.
unfoldable pub all_freed : Group → (ℕ → List Addr) → ℕ → ℕ → List ℕ
all_freed g b zero s = []
all_freed g b (suc n) s = freed_of g (b s) ++ all_freed g b n (s + 1)

all_freed-same :
    (g : Group) (heap : Heap) (b b' : ℕ → List Addr) (n s : ℕ)
    → ((j : ℕ) → s ≤ j → b' j ≡ b j)
    → all_freed (record g { heap = heap }) b' n s ≡ all_freed g b n s
unfolding all_freed
all_freed-same g heap b b' zero s same = refl
all_freed-same g heap b b' (suc n) s same =
    let rest = all_freed-same g heap b b' n (s + 1) (λ j low. same j (omega arith)) in
    rw (same s (omega arith), freed_of-heap g heap (b s), rest) refl

free_buckets-step :
    (n k : ℕ) (g g1 g2 : Group) (freed more : List ℕ)
    → free_bucket ((g.heap.headers k).count + 1) true k g ≡ done (freed, g1)
    → free_buckets n true (k + 1) g1 ≡ done (more, g2)
    → free_buckets (suc n) true k g ≡ done (freed ++ more, g2)
unfolding free_buckets
free_buckets-step n k g g1 g2 freed more first_run rest = rw (free_buckets, first_run, rest) refl

free_group-step :
    (g g1 : Group) (base : ℕ) (freed : List ℕ)
    → g.hash ≡ some base
    → free_buckets g.len true base g ≡ done (freed, g1)
    → free_group true g ≡ done (freed, record g1 { hash = none })
unfolding free_group
free_group-step g g1 base freed at_hash run = rw (free_group, at_hash, run) refl

free_buckets-freed :
    (h : ℕ → ℕ) (n : ℕ) (g : Group) (base : ℕ) (b : ℕ → List Addr) (s : ℕ)
    → IsTable h g base b
    → s + n ≤ g.len
    → ((j : ℕ) → s ≤ j → j < g.len → length (b j) < 2 ^ 64)
    → (heap' : Heap) × (free_buckets n true (base + s) g
        ≡ done (all_freed g b n s, record g { heap = heap' }))
unfolding free_buckets all_freed
free_buckets-freed h zero g base b s table fits small = (g.heap, refl)
free_buckets-freed h (suc n) g base b s table fits small =
    let s_lt : s < g.len = omega arith in
    let fuel = (g.heap.headers (base + s)).count + 1 in
    let (heap1, run, b', table', others) =
      free_bucket-IsTable h fuel g base b s (b s) table s_lt refl (small s (omega arith) s_lt)
        (omega (arith, (table.lists s s_lt).count_eq)) in
    let others' : (j : ℕ) → s + 1 ≤ j → b' j ≡ b j = λ j low. others j (ground arith) in
    let g1 : Group = record g { heap = heap1 } in
    let (heap', rest) =
      free_buckets-freed h n g1 base b' (s + 1) table' (omega arith)
        (λ j low lt. rw (others' j low) (small j (omega arith) lt)) in
    let g2 : Group = record g { heap = heap' } in
    let same = all_freed-same g heap1 b b' n (s + 1) others' in
    let next : base + (s + 1) ≡ base + s + 1 = omega arith in
    let at_next =
      subst (λ (k : ℕ). free_buckets n true k g1 ≡ done (all_freed g1 b' n (s + 1), g2)) next
        rest in
    (
      heap',
      free_buckets-step n (base + s) g g1 g2 (freed_of g (b s)) (all_freed g b n (s + 1)) run
          (at_next ∙ ap (λ l. done (l, g2)) same),
    )

-- A table is freed: the call ends, and hands the data of all elements to the function that frees it, the
-- buckets one after another and each from its head, and no NULL. No headers are left.
pub free_group-freed :
    (h : ℕ → ℕ) (g : Group) (base : ℕ) (b : ℕ → List Addr)
    → IsTable h g base b
    → ((j : ℕ) → j < g.len → length (b j) < 2 ^ 64)
    → (g' : Group) × (free_group true g ≡ done (all_freed g b g.len 0, g')) × (g'.hash ≡ none)
unfolding free_group
free_group-freed h g base b table small =
    let (heap', run) =
      free_buckets-freed h (g.len) g base b 0 table (omega arith) (λ j _ lt. small j lt) in
    let start : base + 0 ≡ base = omega arith in
    let g1 : Group = record g { heap = heap' } in
    (
      record g1 { hash = none },
      free_group-step g g1 base _ (table.hash_eq) (
          subst (λ (k : ℕ). free_buckets g.len true k g ≡ done (all_freed g b g.len 0, g1)) start
            run),
      refl,
    )
