-- ===== src/Channels/Clear.antt =====
-- What clearing the table hands back.
use osns.Prelude.{
  ℕ, zero, suc, ◌+◌, ◌^◌, ◌≤◌, ◌<◌, ◌≡◌, refl, ap, sym, subst, ◌∙◌, arith, none, some, List, [],
  ◌∷◌, ◌++◌, length, ◌==◌, ==_refl, false, Bool-cases, inl, inr,
}
use osns.SshString.{done}
use osns.SimpleList.{Addr, element, Heap}
use osns.SimpleList.Users.{remove_list_head, remove_list_element}
use osns.SimpleList.Lists.{IsList}
use osns.SimpleList.Take.{get_list_head-first, first}
use osns.SimpleHash.Table.{IsTable}
use osns.SimpleHash.Change.{update}
use osns.SimpleHash.Remove.{take-IsTable}
use osns.Channels.{
  Channels, channels_table_size, channel_of, clear_row, clear_rows, clear_ssh_channels_table,
}
use osns.Channels.Invariant.{as_group, number, IsChannels}
use osns.Channels.Walk.{channels_of, all_channels}

-- The table with other lists.
abbrev pub with_heap : Channels → Heap → Channels
with_heap t heap = record t { heap = heap }

row_end :
    (fuel k : ℕ) (t : Channels)
    → remove_list_head k t.heap ≡ some (none, t.heap)
    → clear_row (suc fuel) k t ≡ done ([], t)
unfolding clear_row
row_end fuel k t no_head = rw (clear_row, no_head) refl

row_next :
    (fuel k i : ℕ) (t : Channels) (heap heap' : Heap) (freed : List ℕ)
    → remove_list_head k t.heap ≡ some (some (element i), heap)
    → clear_row fuel k (with_heap t heap) ≡ done (freed, with_heap t heap')
    → clear_row (suc fuel) k t ≡ done (i ∷ freed, with_heap t heap')
unfolding clear_row channel_of
row_next fuel k i t heap heap' freed step rest = rw (clear_row, step, rest) refl

-- A row is emptied, and the others stay.
clear_row-IsTable :
    (fuel : ℕ) (t : Channels) (b : ℕ → List Addr) (s : ℕ) (xs : List Addr)
    → IsTable number (as_group t) 0 b
    → s < channels_table_size
    → b s ≡ xs
    → length xs < 2 ^ 64
    → length xs < fuel
    → (heap' : Heap) × (clear_row fuel (0 + s) t ≡ done (channels_of xs, with_heap t heap'))
      × (b' : ℕ → List Addr) × IsTable number (as_group (with_heap t heap')) 0 b'
      × (b' s ≡ [])
      × ((j : ℕ) → (s == j) ≡ false → b' j ≡ b j)
unfolding channels_of channel_of remove_list_head remove_list_element first
clear_row-IsTable zero t b s xs table s_lt e small enough = absurd (omega arith)
clear_row-IsTable (suc fuel) t b s [] table s_lt e small enough =
    let list = subst (IsList (t.heap) (0 + s)) e (table.lists s s_lt) in
    let no_head : remove_list_head (0 + s) (t.heap) ≡ some (none, t.heap) =
      rw (remove_list_head, get_list_head-first (t.heap) (0 + s) [] list) refl in
    (t.heap, row_end fuel (0 + s) t no_head, b, table, e, λ j _. refl)
clear_row-IsTable (suc fuel) t b s (x ∷ xs) table s_lt e small enough =
    let list = subst (IsList (t.heap) (0 + s)) e (table.lists s s_lt) in
    let (heap1, run, shorter, (i, at_i), _, _) =
      take-IsTable number (as_group t) 0 b s [] xs x table s_lt e (rw e small) in
    let (heap', rest, b', final, emptied, others) =
      clear_row-IsTable fuel (with_heap t heap1) (update b s xs) s xs shorter s_lt
        (rw (==_refl s) refl) (omega arith) (omega arith) in
    let step : remove_list_head (0 + s) (t.heap) ≡ some (some x, heap1) =
      rw (remove_list_head, get_list_head-first (t.heap) (0 + s) (x ∷ xs) list, run) refl in
    let step_i = subst (λ a. remove_list_head (0 + s) t.heap ≡ some (some a, heap1)) at_i step in
    (
      heap',
      rw at_i (row_next fuel (0 + s) i t heap1 heap' (channels_of xs) step_i rest),
      b',
      final,
      emptied,
      λ j sj. others j sj ∙ rw sj refl,
    )

rows_next :
    (n k : ℕ) (t t1 t2 : Channels) (freed more : List ℕ)
    → clear_row ((t.heap.headers k).count + 1) k t ≡ done (freed, t1)
    → clear_rows n (k + 1) t1 ≡ done (more, t2)
    → clear_rows (suc n) k t ≡ done (freed ++ more, t2)
unfolding clear_rows
rows_next n k t t1 t2 freed more row rest = rw (clear_rows, row, rest) refl

all_channels-same :
    (n k : ℕ) (b b' : ℕ → List Addr)
    → ((j : ℕ) → k ≤ j → b' j ≡ b j)
    → all_channels n k b' ≡ all_channels n k b
unfolding all_channels
all_channels-same zero k b b' same = refl
all_channels-same (suc n) k b b' same =
    rw (same k (omega arith), all_channels-same n (k + 1) b b' (λ j low. same j (omega arith))) refl

clear_rows-IsTable :
    (n : ℕ) (t : Channels) (b : ℕ → List Addr) (s : ℕ)
    → IsTable number (as_group t) 0 b
    → s + n ≡ channels_table_size
    → ((j : ℕ) → j < channels_table_size → length (b j) < 2 ^ 64)
    → ((j : ℕ) → j < s → b j ≡ [])
    → (heap' : Heap) × (clear_rows n s t ≡ done (all_channels n s b, with_heap t heap'))
      × (b' : ℕ → List Addr) × IsTable number (as_group (with_heap t heap')) 0 b'
      × ((j : ℕ) → j < channels_table_size → b' j ≡ [])
unfolding clear_rows all_channels
clear_rows-IsTable zero t b s table fits small done_before =
    (t.heap, refl, b, table, λ j lt. done_before j (omega arith))
clear_rows-IsTable (suc n) t b s table fits small done_before =
    let s_lt : s < channels_table_size = omega arith in
    let at0 : 0 + s ≡ s = omega arith in
    let list = subst (λ (m : ℕ). IsList t.heap m (b s)) at0 (table.lists s s_lt) in
    let fuel = (t.heap.headers s).count + 1 in
    let (heap1, row0, b1, table1, emptied, others) =
      clear_row-IsTable fuel t b s (b s) table s_lt refl (small s s_lt)
        (omega (arith, list.count_eq)) in
    let row =
      subst (λ (m : ℕ). clear_row fuel m t ≡ done (channels_of (b s), with_heap t heap1)) at0
        row0 in
    let before : (j : ℕ) → j < s + 1 → b1 j ≡ [] = λ j lt. elim (Bool-cases (s == j)) [
      | inl e ↦ let sj : s ≡ j = ground arith in ap (λ (m : ℕ). b1 m) (sym sj) ∙ emptied
      | inr f ↦ others j f ∙ done_before j (ground arith)
    ] in
    let small1 : (j : ℕ) → j < channels_table_size → length (b1 j) < 2 ^ 64 = λ j lt.
      elim (Bool-cases (s == j)) [
        | inl e ↦ rw (before j (ground arith)) (omega arith)
        | inr f ↦ rw (others j f) (small j lt)
      ] in
    let (heap', rest, b', final, empty) =
      clear_rows-IsTable n (with_heap t heap1) b1 (s + 1) table1 (omega arith) small1 before in
    let same = all_channels-same n (s + 1) b b1 (λ j low. others j (ground arith)) in
    (
      heap',
      rows_next n s t (with_heap t heap1) (with_heap t heap') (channels_of (b s))
          (all_channels n (s + 1) b) row (rest ∙ ap (λ l. done (l, with_heap t heap')) same),
      b',
      final,
      empty,
    )

-- A table in order, whose rows have fewer than 2 ^ 64 channels, is cleared: the call ends, hands the
-- channels of all rows to the function that frees them, one row after another and each from its head, and
-- leaves all rows empty. The count of the channels and their flags stay.
pub clear_ssh_channels_table-freed :
    (t : Channels) (b : ℕ → List Addr)
    → IsChannels t b
    → ((j : ℕ) → j < channels_table_size → length (b j) < 2 ^ 64)
    → (heap' : Heap) × (clear_ssh_channels_table t
        ≡ done (all_channels channels_table_size 0 b, with_heap t heap'))
      × (b' : ℕ → List Addr) × IsTable number (as_group (with_heap t heap')) 0 b'
      × ((j : ℕ) → j < channels_table_size → b' j ≡ [])
unfolding clear_ssh_channels_table
clear_ssh_channels_table-freed t b ok small =
    clear_rows-IsTable channels_table_size t b 0 (ok.table) refl small
      (λ j lt. absurd (omega (arith, lt)))
