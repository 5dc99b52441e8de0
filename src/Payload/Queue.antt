-- ===== src/Payload/Queue.antt =====
-- A queue of payloads as a list: what get_ssh_payload of src/lib/ssh/payload.c gives, round by round.
use osns.Prelude.{
  ℕ, ◌^◌, ◌<◌, ◌≡◌, refl, sym, ap, subst, arith, Bool, true, false, List, [], ◌∷◌, ◌++◌,
  append_assoc, append-nil, length, length-append,
}
use osns.SshString.{Run, done}
use osns.SimpleList.{Addr, Heap}
use osns.SimpleList.Links.{Apart}
use osns.SimpleList.Lists.{IsList, ring}
use osns.SimpleList.Add.{add_list_element_last-IsList}
use osns.Payload.{
  Choice, selects, ends, passes, Found, not_found, taken, seen, queue_ssh_payload, queue_all, Wake,
  timed_out, woken, Round, Got, got_payload, broken_off, expired, waiting, got_of, after_round,
  get_ssh_payload,
}
use osns.Payload.Select.{pick, pick_by, select_requested_payload-Picked}

-- Each payload is queued when it is not in the queue, nor an end of it.
abbrev pub Fresh : ℕ → List Addr → List Addr → Type 0
Fresh k xs [] = Unit {0}
Fresh k xs (p ∷ ps) = Apart p (ring k xs) × Fresh k (xs ++ (p ∷ [])) ps

pub queue_all-IsList :
    (heap : Heap) (k : ℕ) (xs ps : List Addr)
    → IsList heap k xs
    → Fresh k xs ps
    → length (xs ++ ps) < 2 ^ 64
    → (heap' : Heap) × (queue_all k ps heap ≡ done heap') × IsList heap' k (xs ++ ps)
unfolding queue_all queue_ssh_payload
queue_all-IsList heap k xs [] list fresh small =
    (heap, refl, subst (λ l. IsList heap k l) (sym (append-nil xs)) list)
queue_all-IsList heap k xs (p ∷ ps) list (apart, fresh) small =
    let assoc = append_assoc xs (p ∷ []) ps in
    let (heap1, run1, list1) =
      add_list_element_last-IsList heap k xs p list apart
        (omega (arith, length-append xs (p ∷ ps))) in
    let (heap2, run2, list2) =
      queue_all-IsList heap1 k (xs ++ (p ∷ [])) ps list1 fresh
        (subst (λ (l : List Addr). length l < 2 ^ 64) (sym assoc) small) in
    (heap2, rw (run1, run2) refl, subst (λ l. IsList heap2 k l) assoc list2)

-- What is done with a choice from a queue, and what with a wait.
unfoldable pub answer : Found × List Addr → Got × List Addr → Got × List Addr
answer (not_found, xs) others = others
answer (taken e, xs) others = (got_payload e, xs)
answer (seen e, xs) others = (got_payload e, xs)

unfoldable pub resume : Bool → Wake → List Addr → (List Addr → Got × List Addr) → Got × List Addr
resume true wake xs go_on = (broken_off, xs)
resume false timed_out xs go_on = (expired, xs)
resume false (woken ps) xs go_on = go_on ps

-- The same as get_ssh_payload, on lists.
unfoldable pub fetch : (Addr → Choice) → List Round → List Addr → Got × List Addr
unfolding answer resume
fetch cb_select [] xs = answer (pick cb_select xs) (waiting, xs)
fetch cb_select (r ∷ rounds) xs =
    answer (pick cb_select xs) (resume r.breaks r.wake xs (λ ps. fetch cb_select rounds (xs ++ ps)))

-- The payloads of the rounds fit in the queue and are fresh in it.
abbrev pub Arriving : ℕ → List Addr → Wake → (List Addr → Type 0) → Type 0
Arriving k xs timed_out Later = Unit {0}
Arriving k xs (woken ps) Later = Fresh k xs ps × (length (xs ++ ps) < 2 ^ 64) × Later (xs ++ ps)

abbrev pub Arrives : ℕ → List Addr → List Round → Type 0
Arrives k xs [] = length xs < 2 ^ 64
Arrives k xs (r ∷ rounds) =
    (length xs < 2 ^ 64) × Arriving k xs r.wake (λ later. Arrives k later rounds)

abbrev pub Gets : ℕ → Run (Got × Heap) → Got × List Addr → Type 0
Gets k run r = (heap' : Heap) × (run ≡ done (r.0, heap')) × IsList heap' k r.1

pick_by-not_found :
    (c : Choice) (x : Addr) (xs : List Addr) (others : Found × List Addr)
    → (others.0 ≡ not_found → others.1 ≡ xs)
    → (pick_by c x xs others).0 ≡ not_found
    → (pick_by c x xs others).1 ≡ x ∷ xs
unfolding pick_by
pick_by-not_found selects x xs others same e = cc
pick_by-not_found ends x xs others same e = refl
pick_by-not_found passes x xs others same e = ap (λ l. x ∷ l) (same e)

pick-not_found :
    (cb_select : Addr → Choice) (xs : List Addr)
    → (pick cb_select xs).0 ≡ not_found
    → (pick cb_select xs).1 ≡ xs
unfolding pick
pick-not_found cb_select [] e = refl
pick-not_found cb_select (x ∷ xs) e =
    pick_by-not_found (cb_select x) x xs (pick cb_select xs) (pick-not_found cb_select xs) e

got_of-Gets :
    (k : ℕ) (found : Found × List Addr) (xs : List Addr) (heap : Heap) (rest : Run (Got × Heap))
    (r : Got × List Addr)
    → IsList heap k (found.1)
    → (found.0 ≡ not_found → found.1 ≡ xs)
    → (IsList heap k xs → Gets k rest r)
    → Gets k (got_of (found.0) heap rest) (answer found r)
unfolding got_of answer
got_of-Gets k (not_found, l) xs heap rest r list same go_on =
    go_on (subst (λ t. IsList heap k t) (same refl) list)
got_of-Gets k (taken e, l) xs heap rest r list same go_on = (heap, refl, list)
got_of-Gets k (seen e, l) xs heap rest r list same go_on = (heap, refl, list)

after_round-Gets :
    (k : ℕ) (b : Bool) (w : Wake) (xs : List Addr) (heap : Heap)
    (run : List Addr → Run (Got × Heap)) (go_on : List Addr → Got × List Addr)
    → IsList heap k xs
    → ((ps : List Addr) → w ≡ woken ps → Gets k (run ps) (go_on ps))
    → Gets k (after_round b w heap run) (resume b w xs go_on)
unfolding after_round resume
after_round-Gets k true w xs heap run go_on list next = (heap, refl, list)
after_round-Gets k false timed_out xs heap run go_on list next = (heap, refl, list)
after_round-Gets k false (woken ps) xs heap run go_on list next = next ps refl

-- get_ssh_payload on a well-formed queue does what `fetch` says, whatever the others queue in the
-- meantime, and leaves a well-formed queue.
pub get_ssh_payload-fetch :
    (cb_select : Addr → Choice) (rounds : List Round) (heap : Heap) (k : ℕ) (xs : List Addr)
    → IsList heap k xs
    → Arrives k xs rounds
    → Gets k (get_ssh_payload k cb_select rounds heap) (fetch cb_select rounds xs)
unfolding get_ssh_payload fetch
get_ssh_payload-fetch cb_select [] heap k xs list small =
    let (heap', run, list') = select_requested_payload-Picked cb_select heap k xs list small in
    rw run (
      got_of-Gets k (pick cb_select xs) xs heap' (done (waiting, heap')) (waiting, xs) list'
        (pick-not_found cb_select xs) (λ here. (heap', refl, here)))
get_ssh_payload-fetch cb_select (r ∷ rounds) heap k xs list (small, arrives) =
    let (heap', run, list') = select_requested_payload-Picked cb_select heap k xs list small in
    rw run (
      got_of-Gets k (pick cb_select xs) xs heap' _ _ list' (pick-not_found cb_select xs) (λ here.
        after_round-Gets k (r.breaks) (r.wake) xs heap' _ _ here (λ ps e.
          let (fresh, room, later) =
            subst (λ w. Arriving k xs w (λ later. Arrives k later rounds)) e arrives in
          let (heap'', queued, list'') = queue_all-IsList heap' k xs ps here fresh room in
          let next = get_ssh_payload-fetch cb_select rounds heap'' k (xs ++ ps) list'' later in
          rw queued next)))
