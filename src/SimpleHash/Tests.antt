-- ===== src/SimpleHash/Tests.antt =====
-- Hash tables at work.
use osns.Prelude.{
  ℕ, ◌%◌, ◌^◌, ◌<◌, ◌≡◌, sym, ap, subst, arith, true, Option, none, some, List, [], ◌∷◌, ◌==◌,
  length, Bool-cases, inl, inr,
}
use osns.SshString.{done}
use osns.SimpleList.{Addr, element, standalone_element_ops, empty_header_ops}
use osns.SimpleHash.{
  Group, stored, add_data_to_hash, lookup_simple_hash, remove_data_from_hash, free_group,
}
use osns.SimpleHash.Table.{IsTable, holds}
use osns.SimpleHash.Change.{update}
use osns.SimpleHash.Add.{add_data_to_hash-IsTable, lookup-add}
use osns.SimpleHash.Remove.{remove_first, remove_data_from_hash-IsTable}
use osns.SimpleHash.Create.{new_group, new_group-IsTable}
use osns.SimpleHash.Free.{all_freed, free_group-freed}

-- Memory in which nothing is set up, with these flags in the headers.
abbrev memory : ℕ → Group
memory flags = record {
  heap = record {
    h = λ _. none;
    n = λ _. none;
    p = λ _. none;
    ops = λ _. standalone_element_ops;
    headers = λ _. record { flags = flags; count = 0; ops = empty_header_ops };
  };
  data_of = λ _. 0;
  len = 0;
  hash = none;
}

abbrev by_value : ℕ → ℕ
by_value d = d

-- A table with four buckets.
abbrev group : Group
group = new_group 4 7 (memory 0)

group-IsTable : IsTable by_value group 7 (λ _. [])
group-IsTable = new_group-IsTable by_value 4 7 (memory 0) (omega arith)

lookup-add_example :
    (g' : Group) × (e : Addr) × (add_data_to_hash by_value (some 1) 6 group ≡ some g')
    × (lookup_simple_hash by_value 6 g' ≡ done (some e))
    × (stored e g' ≡ some 6)
lookup-add_example =
    lookup-add by_value group 7 (λ _. []) 1 6 group-IsTable (λ j _. tt) (omega arith)

unfoldable group_of : Option Group → Group
group_of none = group
group_of (some g) = g

-- The table with the value 6, in the element 1.
abbrev filled : Group
filled = group_of (add_data_to_hash by_value (some 1) 6 group)

abbrev full : ℕ → List Addr
full = update (λ _. []) (6 % group.len) (element 1 ∷ [])

filled-IsTable : IsTable by_value filled 7 full
unfolding group_of
filled-IsTable =
    let (g', run, table, _, _) =
      add_data_to_hash-IsTable by_value group 7 (λ _. []) 1 6 group-IsTable (λ j _. tt)
        (omega arith) in
    subst (λ t. IsTable by_value t 7 full) (sym (ap group_of run)) table

full-small : (j : ℕ) → length (full j) < 2 ^ 64
full-small j = elim (Bool-cases (6 % group.len == j)) [
  | inl t ↦ rw t (omega arith)
  | inr f ↦ rw f (omega arith)
]

remove_data_from_hash-IsTable_example :
    (g' : Group) × (remove_data_from_hash by_value 6 filled ≡ done g')
    × IsTable by_value g' 7
        (update full (6 % filled.len) (remove_first (holds filled 6) (full (6 % filled.len))))
remove_data_from_hash-IsTable_example =
    remove_data_from_hash-IsTable by_value filled 7 full 6 filled-IsTable (full-small _)

free_group-freed_example :
    (g' : Group) × (free_group true filled ≡ done (all_freed filled full filled.len 0, g'))
    × (g'.hash ≡ none)
free_group-freed_example =
    free_group-freed by_value filled 7 full filled-IsTable (λ j _. full-small j)
