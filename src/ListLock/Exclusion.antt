-- ===== src/ListLock/Exclusion.antt =====
-- A writer is alone.
use osns.Prelude.{
  ℕ, zero, suc, ◌+◌, ◌^◌, ◌≤◌, ◌<◌, ◌≡◌, ◌⊎◌, inl, refl, arith, Option, none, some, List, [], ◌∷◌,
  ◌++◌, length, length-append,
}
use osns.ListLock.{
  ListLock, Attempt, waits, acquired, write_unlock_list, read_lock_list, read_unlock_list,
}
use osns.ListLock.Threads.{
  Place, Threads, Step, Reach, idle, write_waiting, writing, read_waiting, reading, after_write,
  after_read, write, wake, unlock_write, read, wake_read, unlock_read, begin, later, threads,
}
use osns.ListLock.Counts.{
  Counts, unlock-Counts, read_unlock-Counts, read_lock-Counts, Fits, write_lock-Fits,
  write_wake-Fits,
}

unfoldable pub writes : Place → ℕ
writes idle = 0
writes (write_waiting pre) = 0
writes writing = 1
writes read_waiting = 0
writes reading = 0

unfoldable pub reads : Place → ℕ
reads idle = 0
reads (write_waiting pre) = 0
reads writing = 0
reads read_waiting = 0
reads reading = 1

-- How many threads write, and how many read.
unfoldable pub writers : List Place → ℕ
writers [] = 0
writers (x ∷ xs) = writes x + writers xs

unfoldable pub readers : List Place → ℕ
readers [] = 0
readers (x ∷ xs) = reads x + readers xs

writers-append :
    (l : List Place) (x : Place) (r : List Place)
    → writers (l ++ (x ∷ r)) ≡ writers l + writes x + writers r
unfolding writers
writers-append [] x r = omega arith
writers-append (y ∷ l) x r = omega (arith, writers-append l x r)

readers-append :
    (l : List Place) (x : Place) (r : List Place)
    → readers (l ++ (x ∷ r)) ≡ readers l + reads x + readers r
unfolding readers
readers-append [] x r = omega arith
readers-append (y ∷ l) x r = omega (arith, readers-append l x r)

readers-le : (l : List Place) → readers l ≤ length l
unfolding readers reads
readers-le [] = omega arith
readers-le (idle ∷ l) = omega (arith, readers-le l)
readers-le (write_waiting pre ∷ l) = omega (arith, readers-le l)
readers-le (writing ∷ l) = omega (arith, readers-le l)
readers-le (read_waiting ∷ l) = omega (arith, readers-le l)
readers-le (reading ∷ l) = omega (arith, readers-le l)

-- The lock and the threads agree, and there are not too many of them.
abbrev pub Agrees : Threads → Type 0
Agrees s =
    Counts (s.lock.value) (writers (s.places)) (readers (s.places))
    × (length (s.places) + 1 < 2 ^ 30)

-- A thread that neither writes nor reads is put to another place.
Agrees-at :
    (lock : ListLock) (l : List Place) (x : Place) (r : List Place) (y : Place)
    → Counts (lock.value) (writers l + writes y + writers r) (readers l + reads y + readers r)
    → length (l ++ (x ∷ r)) + 1 < 2 ^ 30
    → Agrees (threads lock l y r)
Agrees-at lock l x r y c few = (
  rw (writers-append l y r, readers-append l y r) c,
  omega (arith, length-append l (x ∷ r), length-append l (y ∷ r)),
)

Counts-at :
    (lock : ListLock) (l : List Place) (x : Place) (r : List Place)
    → Agrees (threads lock l x r)
    → Counts (lock.value) (writers l + writes x + writers r) (readers l + reads x + readers r)
Counts-at lock l x r a = rw (writers-append l x r, readers-append l x r) at (a.0)

after_write-Agrees :
    (l r : List Place) (x : Place) (a : Attempt)
    → Fits a (writers l + 0 + writers r) (readers l + 0 + readers r)
    → length (l ++ (x ∷ r)) + 1 < 2 ^ 30
    → Agrees (after_write l a r)
unfolding after_write Fits writes reads
after_write-Agrees l r x (waits pre lock) fits few =
    Agrees-at lock l x r (write_waiting pre) fits few
after_write-Agrees l r x (acquired lock) (no_write, no_read, c) few =
    let one : writers l + 1 + writers r ≡ 1 = omega arith in
    let zero_read : readers l + 0 + readers r ≡ 0 = omega arith in
    Agrees-at lock l x r writing (rw (one, zero_read) c) few

after_read-Agrees :
    (l r : List Place) (x : Place) (lock : ListLock)
    → Counts (lock.value) (writers l + 0 + writers r) (readers l + 0 + readers r)
    → length (l ++ (x ∷ r)) + 1 < 2 ^ 30
    → (o : Option ListLock) → read_lock_list lock ≡ o
    → Agrees (after_read l lock o r)
unfolding after_read writes reads
after_read-Agrees l r x lock c few none h = Agrees-at lock l x r read_waiting c few
after_read-Agrees l r x lock c few (some lock') h =
    let lens = length-append l (x ∷ r) in
    let (no_write, c') =
      read_lock-Counts lock lock' _ _ c (omega (arith, readers-le l, readers-le r)) h in
    let w : writers l + 0 + writers r ≡ 0 = no_write in
    let n : readers l + 1 + readers r ≡ suc (readers l + 0 + readers r) = omega arith in
    Agrees-at lock' l x r reading (rw (w, n) c') few

Step-Agrees : (s t : Threads) → Step s t → Agrees s → Agrees t
unfolding writes reads
Step-Agrees _ _ (write lock l r) a =
    after_write-Agrees l r idle _
      (write_lock-Fits (suc (length l)) lock _ _ (Counts-at lock l idle r a)) (a.1)
Step-Agrees _ _ (wake lock pre l r) a =
    after_write-Agrees l r (write_waiting pre) _
      (write_wake-Fits (suc (length l)) pre lock _ _ (Counts-at lock l (write_waiting pre) r a))
      (a.1)
Step-Agrees _ _ (unlock_write lock l r) a =
    let c = Counts-at lock l writing r a in
    let w : writers l + 1 + writers r ≡ 1 = omega (arith, c.write_eq) in
    let none_left : writers l + 0 + writers r ≡ 0 = omega arith in
    Agrees-at (write_unlock_list lock) l writing r idle
      (rw none_left (unlock-Counts lock _ (rw w at c))) (a.1)
Step-Agrees _ _ (read lock l r) a =
    after_read-Agrees l r idle lock (Counts-at lock l idle r a) (a.1) _ refl
Step-Agrees _ _ (wake_read lock l r) a =
    after_read-Agrees l r read_waiting lock (Counts-at lock l read_waiting r a) (a.1) _ refl
Step-Agrees _ _ (unlock_read lock l r) a =
    let c = Counts-at lock l reading r a in
    let n : readers l + 1 + readers r ≡ suc (readers l + 0 + readers r) = omega arith in
    Agrees-at (read_unlock_list lock) l reading r idle (read_unlock-Counts lock _ _ (rw n at c))
      (a.1)

-- `n` threads that have nothing to do with the lock.
unfoldable pub idlers : ℕ → List Place
idlers zero = []
idlers (suc n) = idle ∷ idlers n

abbrev pub start : ℕ → Threads
start n = record { lock = record { value = 0; threadidw = 0; threadidpw = 0 }; places = idlers n }

idlers_lem : (n : ℕ) → (writers (idlers n) ≡ 0) × (readers (idlers n) ≡ 0) × (length (idlers n) ≡ n)
unfolding idlers writers readers writes reads
idlers_lem zero = (refl, refl, refl)
idlers_lem (suc n) = let (w, r, e) = idlers_lem n in (omega arith, omega arith, omega arith)

Reach-Agrees : (s t : Threads) → Agrees s → Reach s t → Agrees t
Reach-Agrees s _ a begin = a
Reach-Agrees s t a (later reach step) = Step-Agrees _ t step (Reach-Agrees s _ a reach)

-- However the steps of fewer than 2 ^ 30 - 1 threads are mixed, from a lock that is free: at most one of
-- them writes, and while it does none reads.
pub exclusion :
    (n : ℕ) (t : Threads)
    → n + 1 < 2 ^ 30
    → Reach (start n) t
    → (writers (t.places) ≤ 1) × ((writers (t.places) ≡ 0) ⊎ (readers (t.places) ≡ 0))
exclusion n t few reach =
    let (no_write, no_read, len) = idlers_lem n in
    let c : Counts 0 (writers (idlers n)) (readers (idlers n)) =
      rw (no_write, no_read)
        (record { write_eq = omega arith; read_eq = omega arith; alone = inl refl }) in
    let (counts, _) = Reach-Agrees (start n) t (c, omega arith) reach in
    (omega (arith, counts.write_eq), counts.alone)
