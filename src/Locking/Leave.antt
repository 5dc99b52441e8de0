-- ===== src/Locking/Leave.antt =====
-- The unlock of a lock for reading.
use osns.Prelude.{
  ℕ, ◌^◌, ◌<◌, ◌≡◌, refl, ap, sym, subst, arith, Bool, true, false, Bool-cases, inl, inr, some,
  List, ◌∷◌, ◌++◌, ◌==◌, ==_refl, length, length-append, if◌then◌else◌,
}
use osns.SimpleList.{element, Heap}
use osns.SimpleList.Links.{Apart}
use osns.SimpleList.Pair.{Pair, remove-Pair}
use osns.Locking.{
  Lock, Locking, set_lock, down, returns, leave_readlocks, quit_readlocks, lose_effect,
  osns_readunlock,
}
use osns.Locking.Lists.{
  elements, elements-append, length-elements, IsOut, IsLocking, set_lock-IsLocking, Apart-without,
}

-- A lock is not among the readers any more, whatever its fields are.
left_readers-IsLocking :
    (s : Locking) (ys zs ws : List ℕ) (i : ℕ) (l : Lock) (heap' : Heap)
    → IsLocking s (ys ++ (i ∷ zs)) ws
    → Pair heap' s.readlocks s.writelocks (elements (ys ++ zs)) (elements ws)
    → IsOut i (ys ++ zs) ws
    → length (ys ++ (i ∷ zs)) < 2 ^ 32
    → IsLocking (record (set_lock i l s) { heap = heap'; readers = down s.readers }) (ys ++ zs) ws
unfolding set_lock down
left_readers-IsLocking s ys zs ws i l heap' ok pair out small = record {
  lists = pair;
  readers_eq = omega (arith, ok.readers_eq, length-append ys zs, length-append ys (i ∷ zs));
  writers_eq = ok.writers_eq;
  listed = λ j h. elim (Bool-cases (i == j)) [
    | inl t ↦ let e : i ≡ j = ground arith in subst (λ (n : ℕ). IsOut n (ys ++ zs) ws) e out
    | inr f ↦ let (out_r, out_w) = ok.listed j (rw f at h) in (Apart-without j i ys zs out_r, out_w)
  ];
}

-- The same for the store.
pub leave_readlocks-Pair :
    (s : Locking) (ys zs ws : List ℕ) (i : ℕ)
    → Pair s.heap s.readlocks s.writelocks (elements (ys ++ (i ∷ zs))) (elements ws)
    → length (ys ++ (i ∷ zs)) < 2 ^ 32
    → (heap' : Heap) × (leave_readlocks i s
        ≡ some (record s { heap = heap'; readers = down s.readers }))
      × Pair heap' s.readlocks s.writelocks (elements (ys ++ zs)) (elements ws)
      × IsOut i (ys ++ zs) ws
unfolding leave_readlocks elements
leave_readlocks-Pair s ys zs ws i lists small =
    let split = elements-append ys (i ∷ zs) in
    let (heap', run, pair, out_r, out_w) =
      remove-Pair (s.heap) (s.readlocks) (s.writelocks) (elements ys) (elements zs) (elements ws)
        (element i)
        (subst (λ l. Pair (s.heap) (s.readlocks) (s.writelocks) l (elements ws)) split lists)
        (rw (sym split, length-elements (ys ++ (i ∷ zs))) (omega arith)) in
    let back = sym (elements-append ys zs) in
    (
      heap',
      rw run refl,
      subst (λ l. Pair heap' (s.readlocks) (s.writelocks) l (elements ws)) back pair,
      (subst (λ l. Apart (element i) l) back out_r, out_w),
    )

quit_listed :
    (i : ℕ) (s : Locking)
    → (s.locks i).in_list ≡ true
    → quit_readlocks i s ≡ leave_readlocks i (set_lock i (record (s.locks i) { in_list = false }) s)
unfolding quit_readlocks
quit_listed i s marked =
    let left = leave_readlocks i (set_lock i (record (s.locks i) { in_list = false }) s) in
    ap (λ (b : Bool). if b then left else some s) marked

-- The unlock of a lock among the readers takes it out of them, and out of effect.
pub osns_readunlock-IsLocking :
    (i : ℕ) (s : Locking) (ys zs ws : List ℕ)
    → IsLocking s (ys ++ (i ∷ zs)) ws
    → (s.locks i).in_list ≡ true
    → length (ys ++ (i ∷ zs)) < 2 ^ 32
    → (s' : Locking) × (osns_readunlock i s ≡ some (returns true s'))
      × IsLocking s' (ys ++ zs) ws
      × ((s'.locks i).effective ≡ false)
unfolding osns_readunlock lose_effect set_lock
osns_readunlock-IsLocking i s ys zs ws ok marked small =
    let l : Lock = record (s.locks i) { in_list = false } in
    let s1 = set_lock i l s in
    let (heap', run, pair, out) = leave_readlocks-Pair s1 ys zs ws i (ok.lists) small in
    let t : Locking = record s1 { heap = heap'; readers = down s.readers } in
    let left = left_readers-IsLocking s ys zs ws i l heap' ok pair out small in
    (
      set_lock i (record (t.locks i) { effective = false }) t,
      rw (osns_readunlock, quit_listed i s marked, run) refl,
      set_lock-IsLocking t (ys ++ zs) ws i _ left (λ _. out),
      rw (==_refl i) refl,
    )
