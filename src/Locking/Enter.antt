-- ===== src/Locking/Enter.antt =====
-- A lock for reading, and its unlock.
use osns.Prelude.{
  ℕ, ◌+◌, ◌^◌, ◌<◌, ◌≡◌, refl, sym, subst, arith, Bool, true, false, Bool-cases, inl, inr, Option,
  some, List, [], ◌∷◌, ◌++◌, append-nil, ◌==◌, ==_refl, length, length-append, ltb,
}
use osns.SimpleList.{element, Heap}
use osns.SimpleList.Others.{IsElement}
use osns.SimpleList.Pair.{Pair, add_last-Pair}
use osns.Locking.{
  Lock, Locking, set_lock, up, Outcome, waits, returns, enter_readlocks, read_wait, read_entry,
  osns_readlock,
}
use osns.Locking.Lists.{
  elements, elements-append, length-elements, IsOut, IsLocking, set_lock-IsLocking, Apart-insert,
}

-- A lock that is marked as in a list is put among the readers.
pub joined_readers-IsLocking :
    (s : Locking) (ys zs ws : List ℕ) (i : ℕ) (l : Lock) (heap' : Heap)
    → IsLocking s (ys ++ zs) ws
    → Pair heap' s.readlocks s.writelocks (elements (ys ++ (i ∷ zs))) (elements ws)
    → length (ys ++ zs) + 1 < 2 ^ 32
    → l.in_list ≡ true
    → IsLocking
        (set_lock i l (record s { heap = heap'; readers = up s.readers }))
        (ys ++ (i ∷ zs))
        ws
unfolding set_lock up
joined_readers-IsLocking s ys zs ws i l heap' ok pair small marked = record {
  lists = pair;
  readers_eq = omega (arith, ok.readers_eq, length-append ys zs, length-append ys (i ∷ zs));
  writers_eq = ok.writers_eq;
  listed = λ j h. elim (Bool-cases (i == j)) [
    | inl t ↦ let h' = rw t at h in cc
    | inr f ↦
        let (out_r, out_w) = ok.listed j (rw f at h) in (Apart-insert j i ys zs f out_r, out_w)
  ];
}

-- What a call has done to the lists, where it returned 0 and the lock is in effect.
pub record InEffect (o : Option Outcome) (i : ℕ) (rs ws : List ℕ) : Type 0 where
  pub after : Locking
  pub run_eq : o ≡ some (returns true after)
  pub effective_eq : (after.locks i).effective ≡ true
  pub ok : IsLocking after rs ws

-- A reader has the lock at once if there is no writer, and else waits, in no list.
unfoldable pub ReadResult : Option Outcome → ℕ → List ℕ → List ℕ → Type 0
ReadResult o i rs [] = InEffect o i (rs ++ (i ∷ [])) []
ReadResult o i rs (w ∷ ws) = (s' : Locking) × (o ≡ some (waits s')) × IsLocking s' rs (w ∷ ws)

-- The thread is noted in the lock.
pub noted-IsLocking :
    (s : Locking) (rs ws : List ℕ) (self i : ℕ)
    → IsLocking s rs ws
    → IsLocking (set_lock i (record (s.locks i) { thread = self }) s) rs ws
noted-IsLocking s rs ws self i ok = set_lock-IsLocking s rs ws i _ ok (ok.listed i)

pub element-IsElement : (i : ℕ) → IsElement (element i)
element-IsElement i = (i, refl)

enter_readlocks-Pair :
    (s : Locking) (rs ws : List ℕ) (i : ℕ)
    → IsLocking s rs ws
    → IsOut i rs ws
    → length rs + 1 < 2 ^ 32
    → (heap' : Heap) × (enter_readlocks i s
        ≡ some (record s { heap = heap'; readers = up s.readers }))
      × Pair heap' s.readlocks s.writelocks (elements (rs ++ (i ∷ []))) (elements ws)
unfolding enter_readlocks elements
enter_readlocks-Pair s rs ws i ok (out_r, out_w) small =
    let (heap', run, pair) =
      add_last-Pair (s.heap) (s.readlocks) (s.writelocks) (elements rs) (elements ws) (element i)
        (ok.lists) (element-IsElement i) out_r out_w (omega (arith, length-elements rs)) in
    (
      heap',
      rw run refl,
      subst (λ l. Pair heap' s.readlocks s.writelocks l (elements ws))
          (sym (elements-append rs (i ∷ []))) pair,
    )

read_wait-Result :
    (i : ℕ) (s : Locking) (rs ws : List ℕ)
    → IsLocking s rs ws
    → (s.locks i).in_list ≡ false
    → length rs + 1 < 2 ^ 32
    → ReadResult (read_wait i s) i rs ws
unfolding ReadResult read_wait set_lock
read_wait-Result i s rs [] ok out small =
    let (heap', run, pair) = enter_readlocks-Pair s rs [] i ok (ok.listed i out) small in
    let no_writers : ltb 0 (s.writers) ≡ false = ground (arith, ok.writers_eq) in
    let l : Lock = record (s.locks i) { in_list = true; effective = true } in
    record {
      after = set_lock i l (record s { heap = heap'; readers = up s.readers });
      run_eq = rw (read_wait, no_writers, run) refl;
      effective_eq = rw (==_refl i) refl;
      ok =
          joined_readers-IsLocking s rs [] [] i l heap'
            (subst (λ t. IsLocking s t []) (sym (append-nil rs)) ok) pair (rw (append-nil rs) small)
            refl;
    }
read_wait-Result i s rs (w ∷ ws) ok out small =
    let writers : ltb 0 (s.writers) ≡ true = ground (arith, ok.writers_eq) in
    (s, rw (read_wait, writers) refl, ok)

pub noted_in_list :
    (s : Locking) (self i : ℕ) (b : Bool)
    → (s.locks i).in_list ≡ b
    → ((set_lock i (record (s.locks i) { thread = self }) s).locks i).in_list ≡ b
unfolding set_lock
noted_in_list s self i b h = rw (==_refl i) h

read_entry-Result :
    (i : ℕ) (s : Locking) (rs ws : List ℕ)
    → IsLocking s rs ws
    → (s.locks i).in_list ≡ false
    → length rs + 1 < 2 ^ 32
    → ReadResult (read_entry i s) i rs ws
unfolding read_entry
read_entry-Result i s rs ws ok out small =
    rw (read_entry, out) (read_wait-Result i s rs ws ok out small)

-- A lock for reading that is in no list: without writers it joins the readers, in effect, and with writers
-- the call waits and leaves the lists.
pub osns_readlock-Result :
    (self i : ℕ) (s : Locking) (rs ws : List ℕ)
    → IsLocking s rs ws
    → (s.locks i).in_list ≡ false
    → length rs + 1 < 2 ^ 32
    → ReadResult (osns_readlock self i s) i rs ws
unfolding osns_readlock
osns_readlock-Result self i s rs ws ok out small =
    read_entry-Result i (set_lock i (record (s.locks i) { thread = self }) s) rs ws
      (noted-IsLocking s rs ws self i ok) (noted_in_list s self i false out) small
