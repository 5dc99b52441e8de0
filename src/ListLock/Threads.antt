-- ===== src/ListLock/Threads.antt =====
-- Threads that share a list lock.
use osns.Prelude.{suc, Bool, Option, none, some, List, ◌∷◌, ◌++◌, length}
use osns.ListLock.{
  ListLock, Attempt, waits, acquired, write_lock_list, write_wake, write_unlock_list,
  read_lock_list, read_unlock_list,
}

-- Where a thread is with respect to the lock.
pub data Place : Type 0 where
  idle : Place
  write_waiting : Bool → Place
  writing : Place
  read_waiting : Place
  reading : Place

pub record Threads : Type 0 where
  pub lock : ListLock
  pub places : List Place

unfoldable pub after_write : List Place → Attempt → List Place → Threads
after_write l (waits pre lock) r = record { lock = lock; places = l ++ (write_waiting pre ∷ r) }
after_write l (acquired lock) r = record { lock = lock; places = l ++ (writing ∷ r) }

unfoldable pub after_read : List Place → ListLock → Option ListLock → List Place → Threads
after_read l old none r = record { lock = old; places = l ++ (read_waiting ∷ r) }
after_read l old (some lock) r = record { lock = lock; places = l ++ (reading ∷ r) }

abbrev pub threads : ListLock → List Place → Place → List Place → Threads
threads lock l place r = record { lock = lock; places = l ++ (place ∷ r) }

-- One thread, the one behind those of `l`, does a step. It may be woken at any time. Threads have the
-- numbers from 1 on.
pub data Step : Threads → Threads → Type 0 where
  write :
      (lock : ListLock) (l r : List Place)
      → Step (threads lock l idle r) (after_write l (write_lock_list (suc (length l)) lock) r)
  wake :
      (lock : ListLock) (pre : Bool) (l r : List Place)
      → Step
          (threads lock l (write_waiting pre) r)
          (after_write l (write_wake (suc (length l)) pre lock) r)
  unlock_write :
      (lock : ListLock) (l r : List Place)
      → Step (threads lock l writing r) (threads (write_unlock_list lock) l idle r)
  read :
      (lock : ListLock) (l r : List Place)
      → Step (threads lock l idle r) (after_read l lock (read_lock_list lock) r)
  wake_read :
      (lock : ListLock) (l r : List Place)
      → Step (threads lock l read_waiting r) (after_read l lock (read_lock_list lock) r)
  unlock_read :
      (lock : ListLock) (l r : List Place)
      → Step (threads lock l reading r) (threads (read_unlock_list lock) l idle r)

-- What comes to be from a state by any number of steps.
pub data Reach (start : Threads) : Threads → Type 0 where
  begin : Reach start start
  later : {s t : Threads} → Reach start s → Step s t → Reach start t
