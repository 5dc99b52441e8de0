-- ===== src/Commalist.antt =====
-- Lists of names with commas: src/lib/datatypes/ssh-namelist.c.
mod Tests
pub mod Add
pub mod Search
pub mod Parse
use osns.Prelude.{
  ℕ, zero, suc, ◌+◌, ◌-◌, ◌%◌, ◌^◌, Bool, true, false, Option, none, some, List, [], ◌∷◌, ◌++◌,
  ◌>>=◌,
}
use osns.Prelude.{◌==◌, if◌then◌else◌, ltb, length, drop}
use osns.Memory.{read_bytes, bytes_at, copy_at}
use osns.CString.{text, memchr, strstr}
use osns.SshString.{Run, fault, out_of_fuel, done, u32}

pub record Commalist : Type 0 where
  pub list : Option (List ℕ)
  pub len : ℕ
  pub size : ℕ

abbrev pub enametoolong : ℕ
enametoolong = 36

-- `memcpy` to `clist->list + off`
unfoldable pub write_at : Commalist → ℕ → List ℕ → Option Commalist
write_at clist off bytes = do
  mem ← clist.list
  mem' ← copy_at mem off bytes
  some (record clist { list = some mem' })

-- The name goes to the front of an empty list.
unfoldable pub append_name : List ℕ → Commalist → Option (ℕ × Commalist)
unfolding write_at
append_name name clist =
    if clist.len == 0
    then (do
      clist' ← write_at clist 0 name
      some (length name, record clist' { len = u32 (clist.len + length name) }))
    else (do
      clist1 ← write_at clist clist.len (b',' ∷ [])
      clist2 ← write_at clist1 (u32 (clist.len + 1)) name
      some (u32 (length name + 1), record clist2 { len = u32 (clist.len + (length name + 1)) }))

-- The result, and the list and `*error` afterwards. `error` may be NULL.
unfoldable pub add_name_to_commalist :
    List ℕ → Option Commalist → Option ℕ → Option (ℕ × Option Commalist × Option ℕ)
unfolding append_name
add_name_to_commalist name none error = some (u32 (length name + 1), none, error)
add_name_to_commalist name (some clist) error =
    if ltb clist.size (u32 (u32 (clist.len + length name) + 1))
    then some (0, some clist, error >>= λ _. some enametoolong)
    else (do (n, clist') ← append_name name clist; some (n, some clist', error))

pub free_list_commalist : Commalist → Commalist
free_list_commalist clist = record { list = none; len = 0; size = 0 }

-- Two C strings.
unfoldable pub string_found_commalist : List ℕ → List ℕ → Option Bool
string_found_commalist list name = do
  l ← text list
  n ← text name
  strstr (b',' ∷ (l ++ (b',' ∷ 0 ∷ []))) (b',' ∷ (n ++ (b',' ∷ 0 ∷ [])))

unfoldable pub name_found_namelist : Commalist → List ℕ → Option Bool
name_found_namelist clist name =
    if ltb 0 clist.len
    then (do bytes ← bytes_at clist.list clist.len; string_found_commalist (bytes ++ (0 ∷ [])) name)
    else some false

-- A call of the callback: what `entry` points at, with the zero in the place of the comma, and `len`.
pub record Call : Type 0 where
  pub entry : List ℕ
  pub len : ℕ

-- The first call, and those of the rest of the loop.
unfoldable pub add_call : Call → Run (List Call) → Run (List Call)
add_call call fault = fault
add_call call out_of_fuel = out_of_fuel
add_call call (done calls) = done (call ∷ calls)

-- What follows `memchr`. `left` is an `int`.
unfoldable pub parse_step :
    Option (Option (List ℕ × List ℕ))
    → List ℕ
    → ℕ
    → (List ℕ → ℕ → Run (List Call))
    → Run (List Call)
unfolding add_call
parse_step none start left rest = fault
parse_step (some none) start left rest = done (record { entry = start; len = left } ∷ [])
parse_step (some (some (name, sep))) start left rest =
    let call : Call = record { entry = name ++ (0 ∷ drop 1 sep); len = length name } in
    let left' = left - length name in
    if ltb 0 left' then add_call call (rest (drop 1 sep) left') else done (call ∷ [])

-- A round passes a comma, or ends the loop.
unfoldable pub parse_loop : ℕ → List ℕ → ℕ → Run (List Call)
unfolding parse_step
parse_loop zero start left = out_of_fuel
parse_loop (suc fuel) start left =
    parse_step (memchr start b',' left) start left (λ start' left'. parse_loop fuel start' left')

unfoldable pub list_length : List ℕ → ℕ → Option ℕ
list_length list size = if ltb 0 size then some size else (do t ← text list; some (length t))

-- Each round passes a byte of the list at least.
unfoldable pub parse_from : List ℕ → Option ℕ → Run (List Call)
parse_from list none = fault
parse_from list (some left) = parse_loop (suc (length list)) list left

-- The list of the calls, in their order.
unfoldable pub parse_ssh_commalist : List ℕ → ℕ → Run (List Call)
unfolding parse_from list_length
parse_ssh_commalist list size = parse_from list (list_length list size)
