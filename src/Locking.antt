-- ===== src/Locking.antt =====
-- The locks of readers and writers that the parts of a program share: src/lib/lock/locking.c and
-- locking.h, on the lists of SimpleList. A thread has the mutex up to a wait for the condition, so a call is
-- cut into steps there. The lock with the number `i` has the list element `element i`. A flag of a lock is
-- a field, as they are set and cleared one by one; the mutex, its allocation and the condition are left out,
-- and the functions that set up and clear the lists with them.
mod Tests
pub mod Calls
pub mod Lists
pub mod Enter
pub mod Leave
pub mod Write
pub mod Upgrade
use osns.Prelude.{
  ℕ, ◌+◌, ◌-◌, ◌%◌, ◌^◌, Bool, true, false, not, Option, none, some, ◌>>=◌, ◌==◌, ltb,
  if◌then◌else◌,
}
use osns.SimpleList.{Addr, element, Heap, init_list_element}
use osns.SimpleList.Users.{
  add_list_element_first, add_list_element_last, remove_list_element, list_element_is_first,
}

pub data LockType : Type 0 where
  type_none type_read type_write : LockType

-- The functions that the fields `lock`, `unlock`, `upgrade`, `downgrade` and `prelock` point at. The five
-- of a lock of no type all do nothing, and are one here.
pub data Call : Type 0 where
  nonelock readlock readunlock writelock writeunlock : Call
  upgrade_readlock upgrade_writelock downgrade_readlock prewritelock prereadlock : Call

-- `struct osns_lock_s`; `downgrade` is none where it is not set.
pub record Lock : Type 0 where
  pub type : LockType
  pub thread : ℕ
  pub in_list : Bool
  pub effective : Bool
  pub upgraded : Bool
  pub lock : Call
  pub unlock : Call
  pub upgrade : Call
  pub downgrade : Option Call
  pub prelock : Call

-- `struct osns_locking_s`, with the store and the locks. `readlocks` and `writelocks` are headers.
pub record Locking : Type 0 where
  pub heap : Heap
  pub readlocks : ℕ
  pub writelocks : ℕ
  pub readers : ℕ
  pub writers : ℕ
  pub upgrading : Bool
  pub locks : ℕ → Lock

unfoldable pub set_lock : ℕ → Lock → Locking → Locking
set_lock i l s = record s { locks = λ j. if i == j then l else s.locks j }

-- `++` and `--` on an unsigned int.
unfoldable pub up : ℕ → ℕ
up n = (n + 1) % 2 ^ 32

unfoldable pub down : ℕ → ℕ
down n = (n + 2 ^ 32 - 1) % 2 ^ 32

-- A call that waits for the condition, or that returns; `true` is the result 0 and `false` is -1.
pub data Outcome : Type 0 where
  waits : Locking → Outcome
  returns : Bool → Locking → Outcome

unfoldable pub enter_readlocks : ℕ → Locking → Option Locking
unfolding up
enter_readlocks i s = do
  heap ← add_list_element_last s.readlocks (element i) s.heap
  some (record s { heap = heap; readers = up s.readers })

unfoldable pub enter_writelocks : ℕ → Locking → Option Locking
unfolding up
enter_writelocks i s = do
  heap ← add_list_element_last s.writelocks (element i) s.heap
  some (record s { heap = heap; writers = up s.writers })

-- `remove_list_element` and `readers--`.
unfoldable pub leave_readlocks : ℕ → Locking → Option Locking
unfolding down
leave_readlocks i s = do
  heap ← remove_list_element (some (element i)) s.heap
  some (record s { heap = heap; readers = down s.readers })

unfoldable pub leave_writelocks : ℕ → Locking → Option Locking
unfolding down
leave_writelocks i s = do
  heap ← remove_list_element (some (element i)) s.heap
  some (record s { heap = heap; writers = down s.writers })

-- `_osns_readlock` from its loop on, where a wait is resumed.
unfoldable pub read_wait : ℕ → Locking → Option Outcome
unfolding enter_readlocks set_lock
read_wait i s = if ltb 0 s.writers then some (waits s) else (do
  t ← enter_readlocks i s
  some (returns true (set_lock i (record (t.locks i) { in_list = true; effective = true }) t)))

-- The same from the test of the list on, once the thread is noted.
unfoldable pub read_entry : ℕ → Locking → Option Outcome
unfolding read_wait set_lock
read_entry i s =
    if (s.locks i).in_list
    then some (returns true (set_lock i (record (s.locks i) { effective = true }) s))
    else read_wait i s

unfoldable pub osns_readlock : ℕ → ℕ → Locking → Option Outcome
unfolding read_entry set_lock
osns_readlock self i s = read_entry i (set_lock i (record (s.locks i) { thread = self }) s)

-- A lock that is in a list is taken out of the readers.
unfoldable pub quit_readlocks : ℕ → Locking → Option Locking
unfolding leave_readlocks set_lock
quit_readlocks i s =
    if (s.locks i).in_list
    then leave_readlocks i (set_lock i (record (s.locks i) { in_list = false }) s)
    else some s

unfoldable pub lose_effect : ℕ → Locking → Outcome
unfolding set_lock
lose_effect i s = returns true (set_lock i (record (s.locks i) { effective = false }) s)

unfoldable pub osns_readunlock : ℕ → Locking → Option Outcome
unfolding quit_readlocks lose_effect
osns_readunlock i s = do t ← quit_readlocks i s; some (lose_effect i t)

unfoldable pub take_effect : ℕ → Locking → Outcome
unfolding set_lock
take_effect i s = returns true (set_lock i (record (s.locks i) { effective = true }) s)

-- `_osns_writelock` from its loop on. `list_element_is_first` is called only where there are readers.
unfoldable pub write_wait : ℕ → Locking → Option Outcome
unfolding take_effect
write_wait i s =
    if ltb 0 s.readers
    then (do
      is_first ← list_element_is_first (element i) s.heap
      some (if is_first then take_effect i s else waits s))
    else some (take_effect i s)

-- The lock is added to the writers unless it is in a list.
unfoldable pub join_writers : ℕ → Locking → Option Locking
unfolding enter_writelocks set_lock
join_writers i s =
    if (s.locks i).in_list
    then some s
    else (do t ← enter_writelocks i s; some (set_lock i (record (t.locks i) { in_list = true }) t))

unfoldable pub write_entry : ℕ → Locking → Option Outcome
unfolding join_writers write_wait
write_entry i s = do
  t ← join_writers i s
  if (t.locks i).effective then some (returns true t) else write_wait i t

unfoldable pub osns_writelock : ℕ → ℕ → Locking → Option Outcome
unfolding write_entry set_lock
osns_writelock self i s = write_entry i (set_lock i (record (s.locks i) { thread = self }) s)

unfoldable pub quit_writelocks : ℕ → Locking → Option Locking
unfolding leave_writelocks set_lock
quit_writelocks i s =
    if (s.locks i).in_list
    then leave_writelocks i (set_lock i (record (s.locks i) { in_list = false }) s)
    else some s

unfoldable pub end_upgrade : ℕ → Locking → Locking
unfolding set_lock
end_upgrade i s =
    if (s.locks i).upgraded
    then record (set_lock i (record (s.locks i) { upgraded = false }) s) { upgrading = false }
    else s

unfoldable pub osns_writeunlock : ℕ → Locking → Option Outcome
unfolding quit_writelocks end_upgrade lose_effect
osns_writeunlock i s = do t ← quit_writelocks i s; some (lose_effect i (end_upgrade i t))

unfoldable pub osns_prewritelock : ℕ → ℕ → Locking → Option Outcome
unfolding join_writers set_lock
osns_prewritelock self i s = do
  t ← join_writers i (set_lock i (record (s.locks i) { thread = self }) s)
  some (returns true t)
