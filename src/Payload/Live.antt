-- ===== src/Payload/Live.antt =====
-- A thread that waits for a payload gets it: get_ssh_payload of src/lib/ssh/payload.c.
use osns.Prelude.{
  ℕ, ◌≡◌, refl, sym, ap, subst, ◌∙◌, false, List, [], ◌∷◌, ◌++◌, append_assoc, map, All,
}
use osns.SshString.{done}
use osns.SimpleList.{Addr, Heap}
use osns.SimpleList.Lists.{IsList}
use osns.Payload.{
  Choice, selects, passes, not_found, taken, woken, Round, Got, got_payload, get_ssh_payload,
}
use osns.Payload.Select.{pick, pick_by}
use osns.Payload.Queue.{answer, resume, fetch, Arrives, get_ssh_payload-fetch}

-- A signal after some payloads were queued.
abbrev pub signal : List Addr → Round
signal ps = record { breaks = false; wake = woken ps }

unfoldable pub concat : List (List Addr) → List Addr
concat [] = []
concat (ps ∷ batches) = ps ++ concat batches

-- None of these payloads is the one that is waited for.
abbrev pub AllPass : (Addr → Choice) → List Addr → Type 0
AllPass cb_select xs = All (λ x. cb_select x ≡ passes) xs

AllPass-front :
    (cb_select : Addr → Choice) (xs ys : List Addr)
    → AllPass cb_select (xs ++ ys)
    → AllPass cb_select xs
AllPass-front cb_select [] ys pass = tt
AllPass-front cb_select (x ∷ xs) ys (p, pass) = (p, AllPass-front cb_select xs ys pass)

pick-AllPass :
    (cb_select : Addr → Choice) (xs : List Addr) (p : Addr) (rest : List Addr)
    → AllPass cb_select xs
    → cb_select p ≡ selects
    → pick cb_select (xs ++ (p ∷ rest)) ≡ (taken p, xs ++ rest)
unfolding pick pick_by
pick-AllPass cb_select [] p rest pass e = rw e refl
pick-AllPass cb_select (x ∷ xs) p rest (px, pass) e =
    rw (px, pick-AllPass cb_select xs p rest pass e) refl

pick-none :
    (cb_select : Addr → Choice) (xs : List Addr)
    → AllPass cb_select xs
    → pick cb_select xs ≡ (not_found, xs)
unfolding pick pick_by
pick-none cb_select [] pass = refl
pick-none cb_select (x ∷ xs) (px, pass) = rw (px, pick-none cb_select xs pass) refl

fetch-taken :
    (cb_select : Addr → Choice) (rounds : List Round) (xs ys : List Addr) (p : Addr)
    → pick cb_select xs ≡ (taken p, ys)
    → fetch cb_select rounds xs ≡ (got_payload p, ys)
unfolding fetch answer
fetch-taken cb_select [] xs ys p e = rw e refl
fetch-taken cb_select (r ∷ rounds) xs ys p e = rw e refl

fetch-signals :
    (cb_select : Addr → Choice) (batches : List (List Addr)) (rounds : List Round)
    (xs qs rest : List Addr) (p : Addr)
    → AllPass cb_select (xs ++ (concat batches ++ qs))
    → cb_select p ≡ selects
    → fetch cb_select (map signal batches ++ (signal (qs ++ (p ∷ rest)) ∷ rounds)) xs
      ≡ (got_payload p, xs ++ (concat batches ++ (qs ++ rest)))
unfolding concat fetch answer resume
fetch-signals cb_select [] rounds xs qs rest p pass e =
    rw (pick-none cb_select xs (AllPass-front cb_select xs qs pass)) (
      fetch-taken cb_select rounds (xs ++ (qs ++ (p ∷ rest))) (xs ++ (qs ++ rest)) p (
        ap (λ l. pick cb_select l) (sym (append_assoc xs qs (p ∷ rest)))
        ∙ pick-AllPass cb_select (xs ++ qs) p rest pass e
        ∙ ap (λ l. (taken p, l)) (append_assoc xs qs rest)))
fetch-signals cb_select (ps ∷ batches) rounds xs qs rest p pass e =
    let all = append_assoc ps (concat batches) in
    let pass' : AllPass cb_select ((xs ++ ps) ++ (concat batches ++ qs)) =
      subst (λ l. AllPass cb_select l)
        (ap (λ l. xs ++ l) (all qs) ∙ sym (append_assoc xs ps (concat batches ++ qs))) pass in
    rw (pick-none cb_select xs (AllPass-front cb_select xs _ pass)) (
      fetch-signals cb_select batches rounds (xs ++ ps) qs rest p pass' e
      ∙ ap (λ l. (got_payload p, l))
          (append_assoc xs ps (concat batches ++ (qs ++ rest))
            ∙ ap (λ l. xs ++ l) (sym (all (qs ++ rest)))))

-- A thread waits for a payload that is not in the queue yet. However many signals come before, each with
-- payloads that pass, it gets the payload when that is queued among others, if nothing breaks off the
-- wait; the others stay in the queue, in their order.
pub get_ssh_payload-signals :
    (cb_select : Addr → Choice) (heap : Heap) (k : ℕ) (batches : List (List Addr))
    (rounds : List Round) (xs qs rest : List Addr) (p : Addr)
    → IsList heap k xs
    → Arrives k xs (map signal batches ++ (signal (qs ++ (p ∷ rest)) ∷ rounds))
    → AllPass cb_select (xs ++ (concat batches ++ qs))
    → cb_select p ≡ selects
    → (heap' : Heap) × (get_ssh_payload k cb_select
          (map signal batches ++ (signal (qs ++ (p ∷ rest)) ∷ rounds))
          heap
        ≡ done (got_payload p, heap'))
      × IsList heap' k (xs ++ (concat batches ++ (qs ++ rest)))
get_ssh_payload-signals cb_select heap k batches rounds xs qs rest p list arrives pass e =
    let all = map signal batches ++ (signal (qs ++ (p ∷ rest)) ∷ rounds) in
    let (heap', run, list') = get_ssh_payload-fetch cb_select all heap k xs list arrives in
    let got = fetch-signals cb_select batches rounds xs qs rest p pass e in
    (
      heap',
      run ∙ ap (λ r. done (r.0, heap')) got,
      subst (λ (r : Got × List Addr). IsList heap' k (r.1)) got list',
    )
