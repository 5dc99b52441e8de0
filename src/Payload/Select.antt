-- ===== src/Payload/Select.antt =====
-- The choice of a payload in a queue: select_requested_payload of src/lib/ssh/payload.c.
use osns.Prelude.{
  ℕ, zero, suc, ◌+◌, ◌^◌, ◌<◌, ◌≡◌, refl, sym, subst, arith, List, [], ◌∷◌, ◌++◌, append_assoc,
  length,
}
use osns.SshString.{Run, done}
use osns.SimpleList.{Addr, Heap}
use osns.SimpleList.Lists.{IsList}
use osns.SimpleList.Take.{first, get_list_head-first, remove_list_element-IsList}
use osns.SimpleList.Walk.{get_next_element-first}
use osns.Payload.{
  Choice, selects, ends, passes, Found, not_found, taken, seen, choose, select_loop,
  select_requested_payload,
}

-- The first payload that is selected is taken out; one that ends the search stays.
unfoldable pub pick_by : Choice → Addr → List Addr → Found × List Addr → Found × List Addr
pick_by selects x xs others = (taken x, xs)
pick_by ends x xs others = (seen x, x ∷ xs)
pick_by passes x xs others = (others.0, x ∷ others.1)

unfoldable pub pick : (Addr → Choice) → List Addr → Found × List Addr
unfolding pick_by
pick cb_select [] = (not_found, [])
pick cb_select (x ∷ xs) = pick_by (cb_select x) x xs (pick cb_select xs)

-- What the search in a queue gives, with the queue that it leaves.
abbrev pub Picked : ℕ → List Addr → Run (Found × Heap) → Found × List Addr → Type 0
Picked k ys run picked =
    (heap' : Heap) × (run ≡ done (picked.0, heap')) × IsList heap' k (ys ++ picked.1)

choose-Picked :
    (c : Choice) (heap : Heap) (k : ℕ) (ys xs : List Addr) (x : Addr) (others : Found × List Addr)
    (rest : Run (Found × Heap))
    → IsList heap k (ys ++ (x ∷ xs))
    → length (ys ++ (x ∷ xs)) < 2 ^ 64
    → Picked k (ys ++ (x ∷ [])) rest others
    → Picked k ys (choose c x heap rest) (pick_by c x xs others)
unfolding choose pick_by
choose-Picked selects heap k ys xs x others rest list small found =
    let (heap', run, shorter, _, _) = remove_list_element-IsList heap k ys xs x list small in
    (heap', rw run refl, shorter)
choose-Picked ends heap k ys xs x others rest list small found = (heap, refl, list)
choose-Picked passes heap k ys xs x others rest list small (heap', run, shorter) =
    (heap', run, subst (λ l. IsList heap' k l) (append_assoc ys (x ∷ []) (others.1)) shorter)

select_loop-Picked :
    (cb_select : Addr → Choice) (fuel : ℕ) (heap : Heap) (k : ℕ) (ys xs : List Addr)
    → IsList heap k (ys ++ xs)
    → length (ys ++ xs) < 2 ^ 64
    → length xs < fuel
    → Picked k ys (select_loop fuel cb_select (first xs) heap) (pick cb_select xs)
unfolding select_loop pick first
select_loop-Picked cb_select zero heap k ys xs list small enough = elim enough [ ]
select_loop-Picked cb_select (suc fuel) heap k ys [] list small enough = (heap, refl, list)
select_loop-Picked cb_select (suc fuel) heap k ys (x ∷ xs) list small enough =
    let assoc = append_assoc ys (x ∷ []) xs in
    let others =
      select_loop-Picked cb_select fuel heap k (ys ++ (x ∷ [])) xs
        (subst (λ l. IsList heap k l) (sym assoc) list)
        (subst (λ (l : List Addr). length l < 2 ^ 64) (sym assoc) small) (omega arith) in
    rw (get_next_element-first heap k ys xs x list)
      (choose-Picked (cb_select x) heap k ys xs x (pick cb_select xs) _ list small others)

-- On a queue of fewer than 2 ^ 64 payloads the search ends, with the first payload that is selected or
-- ends it, and the queue is left as the list says.
pub select_requested_payload-Picked :
    (cb_select : Addr → Choice) (heap : Heap) (k : ℕ) (xs : List Addr)
    → IsList heap k xs
    → length xs < 2 ^ 64
    → Picked k [] (select_requested_payload k cb_select heap) (pick cb_select xs)
unfolding select_requested_payload
select_requested_payload-Picked cb_select heap k xs list small =
    rw (get_list_head-first heap k xs list, list.count_eq)
      (select_loop-Picked cb_select (length xs + 1) heap k [] xs list small (omega arith))
