-- ===== src/SimpleHash.antt =====
-- Hash tables whose buckets are lists with a header: src/lib/list/simple-hash.c and simple-hash.h, on the
-- lists of SimpleList. The hash function is a parameter. Pointers to data are numbers, and NULL is 0; the
-- field `list` of a hash element has the address of the element. What `malloc` returns is an argument.
-- The locks of a table and the functions that hand them on are left out.
mod Tests
pub mod Table
pub mod Change
pub mod Add
pub mod Remove
pub mod Create
pub mod Free
use osns.Prelude.{
  ℕ, zero, suc, ◌+◌, ◌%◌, Bool, true, false, Option, none, some, ◌>>=◌, ◌==◌, ltb, List, [], ◌∷◌,
  ◌++◌, if◌then◌else◌, ◌&&◌, not,
}
use osns.SshString.{Run, fault, out_of_fuel, done}
use osns.SimpleList.{Addr, head, tail, element, Heap, init_list_element}
use osns.SimpleList.Steps.{get_next_element}
use osns.SimpleList.Users.{
  add_list_element_last, remove_list_element, get_list_head, remove_list_head, init_list_header,
  type_empty,
}

-- `struct simple_hash_s`, with the store: `hash` is the number of the first header, and `data_of` the field
-- `data` of the hash elements.
pub record Group : Type 0 where
  pub heap : Heap
  pub data_of : ℕ → ℕ
  pub len : ℕ
  pub hash : Option ℕ

unfoldable pub set_data : ℕ → ℕ → Group → Group
set_data i d g = record g { data_of = λ j. if i == j then d else g.data_of j }

-- `element->data` for the element in which a list field stands.
unfoldable pub stored : Addr → Group → Option ℕ
stored (head k) g = none
stored (tail k) g = none
stored (element i) g = some (g.data_of i)

-- `&group->hash[value % group->len]`
unfoldable pub slot : ℕ → Group → Option ℕ
slot value g = if g.len == 0 then none else (do first ← g.hash; some (first + value % g.len))

module _ (hashfunction : ℕ → ℕ) where
  unfoldable pub insert_in_hash : Addr → Group → Option Group
  unfolding slot stored
  insert_in_hash e g = do
    d ← stored e g
    k ← slot (hashfunction d) g
    heap ← add_list_element_last k e g.heap
    some (record g { heap = heap })

  -- The slot is computed, and not used.
  unfoldable pub move_from_hash : Addr → Group → Option Group
  unfolding slot stored
  move_from_hash e g = do
    d ← stored e g
    k ← slot (hashfunction d) g
    heap ← remove_list_element (some e) g.heap
    some (record g { heap = heap })

  -- The loop, from `list` on.
  unfoldable pub lookup_loop : ℕ → ℕ → Option Addr → Group → Run (Option Addr)
  lookup_loop zero d list g = out_of_fuel
  lookup_loop (suc fuel) d none g = done none
  lookup_loop (suc fuel) d (some a) g =
      let rest : Run (Option Addr) = elim (get_next_element a g.heap) [
        | none ↦ fault
        | some n ↦ lookup_loop fuel d n g
      ] in
      elim (stored a g) [ none ↦ fault | some v ↦ if v == d then done (some a) else rest ]

  -- A round passes an element.
  unfoldable pub lookup_simple_hash : ℕ → Group → Run (Option Addr)
  unfolding lookup_loop
  lookup_simple_hash d g = elim (slot (hashfunction d) g) [
    | none ↦ fault
    | some k ↦ lookup_loop ((g.heap.headers k).count + 1) d (get_list_head k g.heap) g
  ]

  unfoldable pub create_hash_element : ℕ → Group → Group
  unfolding set_data
  create_hash_element i g =
      let g' = set_data i 0 g in record g' { heap = init_list_element (element i) none g'.heap }

  unfoldable pub add_data_to_hash : Option ℕ → ℕ → Group → Option Group
  unfolding create_hash_element set_data insert_in_hash
  add_data_to_hash none d g = some g
  add_data_to_hash (some i) d g =
      let g' = set_data i d (create_hash_element i g) in
      insert_in_hash (element i) (record g' { heap = init_list_element (element i) none g'.heap })

  -- `element->data=NULL`
  unfoldable pub clear_data : Addr → Group → Group
  unfolding set_data
  clear_data (head k) g = g
  clear_data (tail k) g = g
  clear_data (element i) g = set_data i 0 g

  unfoldable pub remove_found : Option Addr → Group → Run Group
  unfolding move_from_hash clear_data
  remove_found none g = done g
  remove_found (some e) g = elim (move_from_hash e g) [
    | none ↦ fault
    | some g' ↦ done (clear_data e g')
  ]

  unfoldable pub remove_data_from_hash : ℕ → Group → Run Group
  unfolding lookup_simple_hash remove_found
  remove_data_from_hash d g = elim (lookup_simple_hash d g) [
    | fault ↦ fault
    | out_of_fuel ↦ out_of_fuel
    | done e ↦ remove_found e g
  ]

  -- The table, and `*index` after the call.
  unfoldable pub remove_data_from_hash_index : Option Addr → Group → Option (Option Addr × Group)
  unfolding move_from_hash
  remove_data_from_hash_index none g = some (none, g)
  remove_data_from_hash_index (some e) g = do g' ← move_from_hash e g; some (none, g')

  unfoldable pub get_hashvalue_index : Option Addr → Group → Option ℕ
  unfolding stored
  get_hashvalue_index none g = some 0
  get_hashvalue_index (some e) g = do
    d ← stored e g
    if g.len == 0 then none else some (hashfunction d % g.len)

-- What `get_next_hashed_value` leaves in `*index`, and its result.
unfoldable pub value_at : Option Addr → Group → Option (Option Addr × ℕ)
unfolding stored
value_at none g = some (none, 0)
value_at (some a) g = do d ← stored a g; some (some a, d)

unfoldable pub get_next_hashed_value : Option Addr → ℕ → Group → Option (Option Addr × ℕ)
unfolding value_at slot
get_next_hashed_value (some e) hashvalue g = do list ← get_next_element e g.heap; value_at list g
get_next_hashed_value none hashvalue g = do
  k ← slot hashvalue g
  value_at (get_list_head k g.heap) g

-- The loop over the headers, from `k` on.
unfoldable pub init_headers : ℕ → ℕ → Heap → Option Heap
init_headers zero k heap = some heap
init_headers (suc n) k heap = do
  heap' ← init_list_header k type_empty none heap
  init_headers n (k + 1) heap'

abbrev pub enomem : ℕ
enomem = 12

-- Whether the result is 0, what is left in `*error`, and the group. `malloc` gives the headers.
unfoldable pub initialize_group : ℕ → Option ℕ → Group → Option (Bool × ℕ × Group)
unfolding init_headers
initialize_group len malloc g =
    if ltb 0 len
    then elim malloc [
      | none ↦ some (false, enomem, record g { len = len; hash = none })
      | some first ↦ do
        heap ← init_headers len first g.heap
        some (true, 0, record g { len = len; hash = some first; heap = heap })
    ]
    else some (true, enomem, record g { len = len; hash = none })

-- The inner loop of `free_group`: the data that is handed to `free_data`, where there is such a function.
unfoldable pub free_bucket : ℕ → Bool → ℕ → Group → Run (List ℕ × Group)
free_bucket zero has_free_data k g = out_of_fuel
free_bucket (suc fuel) has_free_data k g = elim (remove_list_head k g.heap) [
  | none ↦ fault
  | some (none, heap) ↦ done ([], record g { heap = heap })
  | some (some e, heap) ↦
      let rest = free_bucket fuel has_free_data k (record g { heap = heap }) in
      elim (stored e g) [
        | none ↦ fault
        | some d ↦ elim rest [
          | fault ↦ fault
          | out_of_fuel ↦ out_of_fuel
          | done (freed, g') ↦ done (if has_free_data && not (d == 0) then d ∷ freed else freed, g')
        ]
      ]
]

-- The loop over the buckets. A round of the inner one takes an element.
unfoldable pub free_buckets : ℕ → Bool → ℕ → Group → Run (List ℕ × Group)
unfolding free_bucket
free_buckets zero has_free_data k g = done ([], g)
free_buckets (suc n) has_free_data k g =
    elim (free_bucket ((g.heap.headers k).count + 1) has_free_data k g) [
      | fault ↦ fault
      | out_of_fuel ↦ out_of_fuel
      | done (freed, g') ↦ elim (free_buckets n has_free_data (k + 1) g') [
        | fault ↦ fault
        | out_of_fuel ↦ out_of_fuel
        | done (more, g'') ↦ done (freed ++ more, g'')
      ]
    ]

unfoldable pub free_group : Bool → Group → Run (List ℕ × Group)
unfolding free_buckets
free_group has_free_data g = elim (g.hash) [
  | none ↦ done ([], g)
  | some first ↦ elim (free_buckets g.len has_free_data first g) [
    | fault ↦ fault
    | out_of_fuel ↦ out_of_fuel
    | done (freed, g') ↦ done (freed, record g' { hash = none })
  ]
]
