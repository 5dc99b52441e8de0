-- ===== src/Requests/Wait.antt =====
-- What a wait leaves: wait_sftp_response of src/sftp/request-hash.c.
use osns.Prelude.{
  ℕ, ◌≡◌, refl, ap, Bool, true, false, Bool-cases, inl, inr, ◌⊎◌, some, List, [], ◌∷◌,
  if◌then◌else◌,
}
use osns.SshString.{Run, done}
use osns.SimpleList.{Addr, element, Heap, standalone_element_ops}
use osns.SimpleList.Users.{remove_list_element, rm_element}
use osns.Requests.{
  Requests, has_bit, set_bit, response, finish, interrupt, timedout, disconnect, failure,
  write_status, write_error, with_heap, remove_request_hashtable,
}
use osns.Requests.Loop.{
  Event, Wake, woken, expires, fails, Round, Ended, result, still_waiting, give_up, sleep, check,
  interrupts, wait_loop, receive_all,
}
use osns.Requests.Table.{IsRows}
use osns.Requests.Events.{IsAbsent, take-Taken, IsOut, IsPending, receive_all-IsPending}

-- The rows are in order, and the request is in none of them, or it still waits.
abbrev pub IsLeft : ℕ → Ended → Requests → Type 0
IsLeft i o t = (b : ℕ → List Addr) × IsRows t b × ((o ≡ still_waiting) ⊎ IsAbsent i b)

abbrev pub Ends : ℕ → Run (Ended × Requests) → Type 0
Ends i run = (o : Ended) × (t : Requests) × (run ≡ done (o, t)) × IsLeft i o t

-- A status without these bits, as of a request that was not answered.
abbrev pub IsOpen : ℕ → Type 0
IsOpen st =
    (has_bit response st ≡ false) × (has_bit finish st ≡ false) × (has_bit failure st ≡ false)

remove_alone :
    (i : ℕ) (heap : Heap)
    → heap.ops (element i) ≡ standalone_element_ops
    → remove_list_element (some (element i)) heap ≡ some heap
unfolding remove_list_element rm_element
remove_alone i heap alone = rw alone refl

give_up-step :
    (i n : ℕ) (f : ℕ → ℕ) (t : Requests) (heap : Heap)
    → remove_list_element (some (element i)) t.heap ≡ some heap
    → give_up i f n t ≡ done (result false, with_heap (write_error i n (write_status i f t)) heap)
unfolding give_up remove_request_hashtable write_error write_status
give_up-step i n f t heap run = rw run refl

-- A request that is given up is in the table no more.
give_up-Ends : (i st n : ℕ) (f : ℕ → ℕ) (t : Requests) → IsPending i st t → Ends i (give_up i f n t)
unfolding write_error write_status
give_up-Ends i st n f t p = elim (p.place) [
  | inl (inside, _, _) ↦
      let taken = take-Taken t (p.rows) i (p.table) (p.small) inside in
      (
        result false,
        _,
        give_up-step i n f t (taken.heap) (taken.run),
        (taken.rows, taken.table, inr (taken.absent)),
      )
  | inr (out, alone) ↦ (
    result false,
    _,
    give_up-step i n f t (t.heap) (remove_alone i (t.heap) alone),
    (p.rows, p.table, inr out),
  )
]

-- A request with one of the bits that it had not is in the table no more.
changed-IsAbsent :
    (i st k : ℕ) (t : Requests) (p : IsPending i st t)
    → has_bit k st ≡ false
    → has_bit k (t.status i) ≡ true
    → IsOut i t (p.rows)
changed-IsAbsent i st k t p off on = elim (p.place) [
  | inr out ↦ out
  | inl (_, same, _) ↦ let e = ap (has_bit k) same in absurd cc
]

interrupts-Ends :
    (i st : ℕ) (t : Requests) (sleeps : Requests → Run (Ended × Requests))
    → IsOpen st
    → IsPending i st t
    → ((t' : Requests) → IsPending i st t' → Ends i (sleeps t'))
    → Ends i (interrupts i t sleeps)
unfolding interrupts write_status
interrupts-Ends i st t sleeps unset p h = elim (Bool-cases (has_bit response (t.status i))) [
  | inr f ↦ rw f (give_up-Ends i st 4 (λ s. set_bit interrupt s) t p)
  | inl e ↦
      let out = changed-IsAbsent i st response t p (unset.0) e in
      rw e (h _ (record { rows = p.rows; table = p.table; small = p.small; place = inr out }))
]

check-Ends :
    (i st : ℕ) (r : Round) (t : Requests) (answered : Run (Ended × Requests))
    (sleeps : Requests → Run (Ended × Requests))
    → IsOpen st
    → IsPending i st t
    → Ends i answered
    → Ends i (sleeps t)
    → Ends i (check i r t answered sleeps)
unfolding check
check-Ends i st r t answered sleeps unset p h_answered h_sleeps =
    elim (Bool-cases (r.interrupted)) [
      | inl e ↦ rw e h_answered
      | inr f ↦ elim (Bool-cases (r.breaks)) [
        | inl e ↦ rw (f, e) (give_up-Ends i st 107 (λ s. set_bit disconnect s) t p)
        | inr f' ↦ elim (Bool-cases (has_bit failure (t.status i))) [
          | inl e ↦
              let out = changed-IsAbsent i st failure t p (unset.2) e in
              rw (f, f', e) (result false, t, refl, (p.rows, p.table, inr (out.0)))
          | inr f'' ↦ elim (Bool-cases (r.on_sequence)) [
            | inl e ↦ rw (f, f', f'', e) (give_up-Ends i st 5 (λ s. set_bit failure s) t p)
            | inr g ↦ elim (Bool-cases (r.disconnected)) [
              | inl e ↦
                  rw (f, f', f'', g, e) (give_up-Ends i st 103 (λ s. set_bit disconnect s) t p)
              | inr g' ↦ rw (f, f', f'', g, g') h_sleeps
            ]
          ]
        ]
      ]
    ]

sleep-Ends :
    (i st : ℕ) (wake : Wake) (t : Requests) (go_on : List Event → Requests → Run (Ended × Requests))
    → IsPending i st t
    → ((events : List Event) → Ends i (go_on events t))
    → Ends i (sleep i wake t go_on)
unfolding sleep
sleep-Ends i st (woken events) t go_on p h = h events
sleep-Ends i st expires t go_on p h = give_up-Ends i st 110 (λ s. set_bit timedout s) t p
sleep-Ends i st (fails n) t go_on p h = give_up-Ends i st n (λ s. set_bit failure s) t p

run_end :
    (i : ℕ) (c : Bool) (t : Requests)
    → (c ≡ true → IsLeft i (result true) t)
    → IsLeft i still_waiting t
    → IsLeft i (if c then result true else still_waiting) t
run_end i true t h waits = h refl
run_end i false t h waits = waits

pub wait_loop-Ends :
    (i st : ℕ) (rounds : List Round) (t : Requests)
    → IsOpen st
    → IsPending i st t
    → Ends i (wait_loop i rounds t)
unfolding wait_loop
wait_loop-Ends i st [] t unset p = (
  _,
  t,
  refl,
  run_end i (has_bit finish (t.status i)) t
      (λ e. (p.rows, p.table, inr ((changed-IsAbsent i st finish t p (unset.1) e).0)))
      (p.rows, p.table, inl refl),
)
wait_loop-Ends i st (r ∷ rounds) t unset p =
    let go_on : List Event → Requests → Run (Ended × Requests) =
      λ events t'. osns.Payload.◌>>=◌ (receive_all events t') (λ t3. wait_loop i rounds t3) in
    let sleeps : (t' : Requests) → IsPending i st t' → Ends i (sleep i r.wake t' go_on) = λ t' p'.
      sleep-Ends i st (r.wake) t' go_on p' (λ events.
        let (t3, run, p3) = receive_all-IsPending i st events t' p' in
        let (o, t4, rest, left) = wait_loop-Ends i st rounds t3 unset p3 in
        (o, t4, rw run rest, left)) in
    elim (Bool-cases (has_bit finish (t.status i))) [
      | inl e ↦
          let out = changed-IsAbsent i st finish t p (unset.1) e in
          rw e (result true, t, refl, (p.rows, p.table, inr (out.0)))
      | inr f ↦ rw f (
          check-Ends i st r t (interrupts i t (λ t'. sleep i r.wake t' go_on))
            (λ t'. sleep i r.wake t' go_on) unset p
            (interrupts-Ends i st t (λ t'. sleep i r.wake t' go_on) unset p sleeps) (sleeps t p))
    ]
