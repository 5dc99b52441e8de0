-- ===== src/Requests/Table.antt =====
-- The table of requests, as the table of channels with the ids for numbers.
use osns.Prelude.{
  ℕ, zero, suc, ◌+◌, ◌%◌, ◌<◌, ◌≡◌, refl, subst, ◌∙◌, arith, true, false, Bool-cases, inl, inr, ◌⊎◌,
  Option, none, some, Option-cases, [], ap, List, ◌==◌,
}
use osns.SshString.{Run, fault, out_of_fuel, done}
use osns.SimpleList.{Addr, head, tail, element}
use osns.SimpleList.Lists.{IsList}
use osns.SimpleList.Steps.{get_next_element}
use osns.SimpleList.Take.{first, get_list_head-first}
use osns.SimpleHash.Table.{IsTable}
use osns.Channels
use osns.Channels.{Channels}
use osns.Channels.Members.{contains}
use osns.Channels.Invariant.{as_group, number}
use osns.Channels.Lookup.{lookup_loop-Outcome}
use osns.Requests.{
  Requests, hashsize, get_container_sftp_r, try_request, take_found, lookup_loop,
  lookup_request_hashtable,
}

abbrev pub as_channels : Requests → Channels
as_channels t = record {
  heap = t.heap;
  lcnr = t.id;
  flags = λ _. 0;
  channelctr = 0;
  tablecount = 0;
  tablesignal = none;
}

-- The rows are `b`, and each request is in the row of its id.
abbrev pub IsRows : Requests → (ℕ → List Addr) → Type 0
IsRows t b = IsTable number (as_group (as_channels t)) 0 b

abbrev report : ℕ → ℕ → Option ℕ × ℕ
report j s = (some j, s)

-- A request that is reported is taken.
unfoldable settle : Requests → Run (Option ℕ × ℕ) → Run (Option ℕ × Requests)
settle t fault = fault
settle t out_of_fuel = out_of_fuel
settle t (done (none, _)) = done (none, t)
settle t (done (some j, _)) = take_found j t

settle-try :
    (id : ℕ) (t : Requests) (a : Addr) (rest : Run (Option ℕ × Requests))
    (rest' : Run (Option ℕ × ℕ))
    → rest ≡ settle t rest'
    → try_request id t (get_container_sftp_r a) rest
      ≡ settle t
          (osns.Channels.try_channel report id 0 (as_channels t) (osns.Channels.channel_of a) rest')
unfolding settle try_request get_container_sftp_r osns.Channels.try_channel osns.Channels.channel_of
settle-try id t (head k) rest rest' e = refl
settle-try id t (tail k) rest rest' e = refl
settle-try id t (element i) rest rest' e = elim (Bool-cases (t.id i == id)) [
  | inl h ↦ rw h refl
  | inr f ↦ rw f e
]

settle-lookup :
    (fuel id : ℕ) (list : Option Addr) (t : Requests)
    → lookup_loop fuel id list t
      ≡ settle t (osns.Channels.lookup_loop fuel none report id 0 list (as_channels t))
unfolding settle lookup_loop osns.Channels.lookup_loop
settle-lookup zero id list t = refl
settle-lookup (suc fuel) id none t = refl
settle-lookup (suc fuel) id (some a) t = elim (Option-cases (get_next_element a t.heap)) [
  | inl n ↦ rw n (settle-try id t a fault fault refl)
  | inr (next, at_next) ↦ rw at_next (settle-try id t a _ _ (settle-lookup fuel id next t))
]

-- A lookup takes a request of the row with the id, or there is none and nothing changes.
abbrev pub Answer : ℕ → Requests → (ℕ → List Addr) → Run (Option ℕ × Requests) → Type 0
Answer id t b run =
    ((j : ℕ) × (contains (element j) (b (id % hashsize)) ≡ true)
      × (t.id j ≡ id)
      × (run ≡ take_found j t))
    ⊎ (((j : ℕ) → contains (element j) (b (id % hashsize)) ≡ true → (t.id j == id) ≡ false)
        × (run ≡ done (none, t)))

pub lookup_request_hashtable-Answer :
    (id : ℕ) (t : Requests) (b : ℕ → List Addr)
    → IsRows t b
    → Answer id t b (lookup_request_hashtable id t)
unfolding lookup_request_hashtable settle
lookup_request_hashtable-Answer id t b rows =
    let k = id % hashsize in
    let k_lt : k < hashsize = omega arith in
    let at0 : 0 + k ≡ k = omega arith in
    let list = subst (λ (m : ℕ). IsList t.heap m (b k)) at0 (rows.lists k k_lt) in
    let fuel = (t.heap.headers k).count + 1 in
    let bridge = settle-lookup fuel id (first (b k)) t in
    let run =
      lookup_loop-Outcome none report id 0 (as_channels t) k fuel [] (b k) list
        (rows.elements k k_lt) (omega (arith, list.count_eq)) in
    rw (get_list_head-first (t.heap) k (b k) list) (elim run [
      | inl (j, inside, at_id, found) ↦ inl (j, inside, at_id, bridge ∙ ap (settle t) found)
      | inr (none_has, nothing) ↦ inr (none_has, bridge ∙ ap (settle t) nothing)
    ])
