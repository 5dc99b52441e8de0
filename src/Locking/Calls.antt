-- ===== src/Locking/Calls.antt =====
-- The functions of src/lib/lock/locking.c that change the type of a lock, and those that users call.
use osns.Prelude.{ℕ, Bool, true, false, not, Option, none, some, ◌>>=◌, ◌||◌, ltb, if◌then◌else◌}
use osns.SimpleList.{element, init_list_element}
use osns.SimpleList.Users.{add_list_element_first}
use osns.Locking.{
  LockType, type_none, type_read, type_write, Call, nonelock, readlock, readunlock, writelock,
  writeunlock, upgrade_readlock, upgrade_writelock, downgrade_readlock, prewritelock, prereadlock,
  Lock, Locking, set_lock, up, Outcome, waits, returns, leave_readlocks, leave_writelocks,
  take_effect, osns_readlock, osns_readunlock, osns_writelock, osns_writeunlock, osns_prewritelock,
}

unfoldable pub is_read : LockType → Bool
is_read type_none = false
is_read type_read = true
is_read type_write = false

unfoldable pub is_write : LockType → Bool
is_write type_none = false
is_write type_read = false
is_write type_write = true

-- `add_list_element_first` to a list, and the count of the list.
unfoldable pub lead_writelocks : ℕ → Locking → Option Locking
unfolding up
lead_writelocks i s = do
  heap ← add_list_element_first s.writelocks (element i) s.heap
  some (record s { heap = heap; writers = up s.writers })

unfoldable pub lead_readlocks : ℕ → Locking → Option Locking
unfolding up
lead_readlocks i s = do
  heap ← add_list_element_first s.readlocks (element i) s.heap
  some (record s { heap = heap; readers = up s.readers })

-- `_osns_upgrade_readlock` from its loop on.
unfoldable pub upgrade_wait : ℕ → Locking → Outcome
unfolding take_effect
upgrade_wait i s = if ltb 0 s.readers then waits s else take_effect i s

-- The fields that make a write lock of a read lock. The source assigns `downgrade` the value of `prelock`.
unfoldable pub as_writelock : Lock → Lock
as_writelock l = record l {
  type = type_write;
  lock = writelock;
  unlock = writeunlock;
  upgrade = upgrade_writelock;
  downgrade = some prewritelock;
  prelock = prewritelock;
}

-- Takes the lock out of the readers where it is in a list.
unfoldable pub quit_readers : ℕ → Locking → Option Locking
unfolding leave_readlocks
quit_readers i s = if (s.locks i).in_list then leave_readlocks i s else some s

-- Behind the tests.
unfoldable pub upgrade_start : ℕ → Locking → Option Outcome
unfolding quit_readers lead_writelocks as_writelock upgrade_wait set_lock
upgrade_start i s = do
  t ← quit_readers i (record s { upgrading = true })
  u ← lead_writelocks i t
  some (
      upgrade_wait i
        (set_lock i (record (as_writelock (u.locks i)) { in_list = true; upgraded = true }) u))

unfoldable pub osns_upgrade_readlock : ℕ → Locking → Option Outcome
unfolding upgrade_start
osns_upgrade_readlock i s =
    if not (is_read (s.locks i).type)
    then some (returns true s)
    else if s.upgrading
    then some (returns false s)
    else upgrade_start i s

-- The field `downgrade` stays.
unfoldable pub as_readlock : Lock → Lock
as_readlock l = record l {
  type = type_read;
  lock = readlock;
  unlock = readunlock;
  upgrade = upgrade_readlock;
  prelock = prereadlock;
}

unfoldable pub osns_downgrade_readlock : ℕ → Locking → Option Outcome
unfolding leave_writelocks lead_readlocks as_readlock set_lock
osns_downgrade_readlock i s =
    if not (s.locks i).upgraded || not (is_write (s.locks i).type)
    then some (returns true s)
    else (do
      t ←
          if (s.locks i).in_list
          then leave_writelocks i (record s { upgrading = false })
          else some (record s { upgrading = false })
      u ← lead_readlocks i t
      some (
          returns true (
            set_lock i
              (record (as_readlock (u.locks i)) {
                in_list = true;
                upgraded = false;
                effective = true;
              })
              u)))

-- The flag of being in a list is not set, and the field `downgrade` stays.
unfoldable pub osns_prereadlock : ℕ → Locking → Option Outcome
unfolding quit_readers lead_writelocks set_lock
osns_prereadlock i s = do
  t ← quit_readers i s
  u ← lead_writelocks i t
  some (
      returns true (
        set_lock i
          (record (u.locks i) {
            type = type_write;
            lock = writelock;
            unlock = writeunlock;
            upgrade = upgrade_writelock;
            prelock = prewritelock;
          })
          u))

-- `(* lock->lock)(lock)`, and the other calls through the fields of a lock. `self` is the calling thread.
unfoldable pub run : Call → ℕ → ℕ → Locking → Option Outcome
run nonelock self i s = some (returns true s)
run readlock self i s = osns_readlock self i s
run readunlock self i s = osns_readunlock i s
run writelock self i s = osns_writelock self i s
run writeunlock self i s = osns_writeunlock i s
run upgrade_readlock self i s = osns_upgrade_readlock i s
run upgrade_writelock self i s = some (returns true s)
run downgrade_readlock self i s = osns_downgrade_readlock i s
run prewritelock self i s = osns_prewritelock self i s
run prereadlock self i s = osns_prereadlock i s

unfoldable pub osns_lock : ℕ → ℕ → Locking → Option Outcome
unfolding run
osns_lock self i s = run ((s.locks i).lock) self i s

unfoldable pub osns_unlock : ℕ → ℕ → Locking → Option Outcome
unfolding run
osns_unlock self i s = run ((s.locks i).unlock) self i s

unfoldable pub osns_prelock : ℕ → ℕ → Locking → Option Outcome
unfolding run
osns_prelock self i s = run ((s.locks i).prelock) self i s

unfoldable pub osns_upgradelock : ℕ → ℕ → Locking → Option Outcome
unfolding run
osns_upgradelock self i s = run ((s.locks i).upgrade) self i s

unfoldable pub osns_downgradelock : ℕ → ℕ → Locking → Option Outcome
unfolding run
osns_downgradelock self i s = do f ← (s.locks i).downgrade; run f self i s

-- `init_list_element(&lock->list, NULL)` and the fields.
unfoldable pub init_lock : ℕ → Lock → Locking → Locking
unfolding set_lock
init_lock i l s = set_lock i l (record s { heap = init_list_element (element i) none s.heap })

-- The source leaves `downgrade` as it finds it.
unfoldable pub init_osns_nonelock : ℕ → Locking → Locking
unfolding init_lock
init_osns_nonelock i s =
    init_lock i
      (record {
        type = type_none;
        thread = 0;
        in_list = false;
        effective = false;
        upgraded = false;
        lock = nonelock;
        unlock = nonelock;
        upgrade = nonelock;
        downgrade = (s.locks i).downgrade;
        prelock = nonelock;
      })
      s

unfoldable pub init_osns_readlock : ℕ → Locking → Locking
unfolding init_lock
init_osns_readlock i s =
    init_lock i
      (record {
        type = type_read;
        thread = 0;
        in_list = false;
        effective = false;
        upgraded = false;
        lock = readlock;
        unlock = readunlock;
        upgrade = upgrade_readlock;
        downgrade = some downgrade_readlock;
        prelock = prereadlock;
      })
      s

unfoldable pub init_osns_writelock : ℕ → Locking → Locking
unfolding init_lock
init_osns_writelock i s =
    init_lock i
      (record {
        type = type_write;
        thread = 0;
        in_list = false;
        effective = false;
        upgraded = false;
        lock = writelock;
        unlock = writeunlock;
        upgrade = upgrade_writelock;
        downgrade = some upgrade_writelock;
        prelock = prewritelock;
      })
      s
