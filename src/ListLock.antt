-- ===== src/ListLock.antt =====
-- The lock of readers and writers that every list has: src/lib/list/lock.c.
-- Between `signal_lock` and `signal_unlock`, or a wait for the condition, a thread is alone, so a call
-- is cut into steps at `signal_condwait`. Bit 0 of the value is SIMPLE_LOCK_PREWRITE, bit 1
-- SIMPLE_LOCK_WRITE, and the rest counts the readers.
mod Tests
pub mod Threads
pub mod Counts
pub mod Exclusion
use osns.Prelude.{
  ℕ, zero, suc, ◌+◌, ◌-◌, ◌/◌, ◌%◌, ◌^◌, Bool, true, false, not, Option, none, some, ◌==◌, ◌&&◌,
  ◌||◌, ltb, leb, if◌then◌else◌,
}

pub record ListLock : Type 0 where
  pub value : ℕ
  pub threadidw : ℕ
  pub threadidpw : ℕ

unfoldable pub has_prewrite : ℕ → Bool
has_prewrite v = v % 2 == 1

unfoldable pub has_write : ℕ → Bool
has_write v = v / 2 % 2 == 1

-- `value |= SIMPLE_LOCK_PREWRITE`, and the other changes of bits.
unfoldable pub set_prewrite : ℕ → ℕ
set_prewrite v = if v % 2 == 1 then v else v + 1

unfoldable pub clear_prewrite : ℕ → ℕ
clear_prewrite v = if v % 2 == 1 then v - 1 else v

unfoldable pub set_write : ℕ → ℕ
set_write v = if v / 2 % 2 == 1 then v else v + 2

unfoldable pub clear_write : ℕ → ℕ
clear_write v = if v / 2 % 2 == 1 then v - 2 else v

-- The condition of the loop of `write_lock_list`. `pre` says that SIMPLE_LOCK_PREWRITE is in `tmp`, and so
-- not in `block`.
unfoldable pub must_wait : Bool → ℕ → Bool
unfolding has_prewrite has_write
must_wait pre v = has_write v || (not pre && has_prewrite v) || ltb 3 v

-- A call that waits, with what it has in `tmp`, or that has the lock.
pub data Attempt : Type 0 where
  waits : Bool → ListLock → Attempt
  acquired : ListLock → Attempt

-- Behind the loop.
unfoldable pub take_write : ℕ → Bool → ListLock → ListLock
unfolding set_write clear_prewrite
take_write self pre lock = record lock {
  value = if pre then clear_prewrite (set_write lock.value) else set_write lock.value;
  threadidw = self;
  threadidpw = 0;
}

unfoldable pub take_prewrite : ℕ → ListLock → ListLock
unfolding set_prewrite
take_prewrite self lock = record lock { value = set_prewrite lock.value; threadidpw = self }

unfoldable pub try_write : ℕ → Bool → ListLock → Attempt
unfolding must_wait take_write
try_write self pre lock =
    if must_wait pre lock.value then waits pre lock else acquired (take_write self pre lock)

-- `write_lock_list` up to the first wait.
unfoldable pub write_lock_list : ℕ → ListLock → Attempt
unfolding has_prewrite take_prewrite try_write
write_lock_list self lock =
    if not (has_prewrite lock.value) || (lock.threadidpw == self)
    then try_write self true (take_prewrite self lock)
    else try_write self false lock

-- From a wait to the next one.
unfoldable pub write_wake : ℕ → Bool → ListLock → Attempt
unfolding must_wait has_prewrite take_prewrite take_write try_write
write_wake self pre lock =
    if not (must_wait pre lock.value)
    then acquired (take_write self pre lock)
    else if not pre && not (has_prewrite lock.value)
    then try_write self true (take_prewrite self lock)
    else waits pre lock

unfoldable pub write_unlock_list : ListLock → ListLock
unfolding clear_write
write_unlock_list lock = record lock { value = clear_write lock.value; threadidw = 0 }

-- `none` is a wait. `value` is an `unsigned int`.
unfoldable pub read_lock_list : ListLock → Option ListLock
unfolding has_write has_prewrite
read_lock_list lock =
    if has_write lock.value || has_prewrite lock.value
    then none
    else some (record lock { value = (lock.value + 4) % 2 ^ 32 })

unfoldable pub read_unlock_list : ListLock → ListLock
read_unlock_list lock = if leb 4 lock.value then record lock { value = lock.value - 4 } else lock
