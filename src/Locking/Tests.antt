-- ===== src/Locking/Tests.antt =====
-- Locks at work.
use osns.Prelude.{
  ◌≡◌, refl, ap, sym, subst, arith, true, false, Option, none, some, [], ◌∷◌, ◌==◌, if◌then◌else◌,
}
use osns.SimpleList.{Heap, standalone_element_ops, empty_header_ops}
use osns.SimpleHash.Create.{fresh_headers, fresh_headers-IsList}
use osns.Locking.{
  Locking, Lock, type_read, type_write, readlock, readunlock, writelock, writeunlock,
  upgrade_readlock, upgrade_writelock, downgrade_readlock, prereadlock, prewritelock, Outcome,
  waits, returns, osns_readlock, osns_readunlock, osns_writelock,
}
use osns.Locking.Calls.{osns_upgrade_readlock, osns_downgradelock}
use osns.Locking.Lists.{IsLocking}
use osns.Locking.Enter.{ReadResult, osns_readlock-Result}
use osns.Locking.Write.{WriteResult, osns_writelock-Result}
use osns.Locking.Upgrade.{UpgradeResult, osns_upgrade_readlock-Result, downgrade-upgrade}

abbrev reader : Lock
reader = record {
  type = type_read;
  thread = 0;
  in_list = false;
  effective = false;
  upgraded = false;
  lock = readlock;
  unlock = readunlock;
  upgrade = upgrade_readlock;
  downgrade = some downgrade_readlock;
  prelock = prereadlock;
}

abbrev writer : Lock
writer = record {
  type = type_write;
  thread = 0;
  in_list = false;
  effective = false;
  upgraded = false;
  lock = writelock;
  unlock = writeunlock;
  upgrade = upgrade_writelock;
  downgrade = some upgrade_writelock;
  prelock = prewritelock;
}

abbrev blank : Heap
blank = record {
  h = λ _. none;
  n = λ _. none;
  p = λ _. none;
  ops = λ _. standalone_element_ops;
  headers = λ _. record { flags = 0; count = 0; ops = empty_header_ops };
}

-- No lock is taken; the lock 9 is for writing, and the others are for reading.
abbrev start : Locking
start = record {
  heap = fresh_headers 2 0 blank;
  readlocks = 0;
  writelocks = 1;
  readers = 0;
  writers = 0;
  upgrading = false;
  locks = λ i. if i == 9 then writer else reader;
}

start-IsLocking : IsLocking start [] []
unfolding osns.Locking.Lists.elements
start-IsLocking = record {
  lists = record {
    apart_eq = refl;
    list = fresh_headers-IsList 2 0 blank 0 (omega arith) (omega arith);
    other = fresh_headers-IsList 2 0 blank 1 (omega arith) (omega arith);
    elements = tt;
    other_elements = tt;
  };
  readers_eq = refl;
  writers_eq = refl;
  listed = λ i _. (tt, tt);
}

osns_readlock-Result_example : ReadResult (osns_readlock 5 1 start) 1 [] []
osns_readlock-Result_example =
    osns_readlock-Result 5 1 start [] [] start-IsLocking refl (omega arith)

unfoldable state_of : Option Outcome → Locking
state_of none = start
state_of (some (waits s)) = s
state_of (some (returns b s)) = s

-- The lock 1 has been taken for reading.
abbrev one : Locking
one = state_of (osns_readlock 5 1 start)

one-IsLocking : IsLocking one (1 ∷ []) []
unfolding state_of ReadResult
one-IsLocking =
    let r = osns_readlock-Result 5 1 start [] [] start-IsLocking refl (omega arith) in
    subst (λ t. IsLocking t (1 ∷ []) []) (sym (ap state_of (r.run_eq))) (r.ok)

one-writer : ((one.locks 9).in_list ≡ false) × ((one.locks 9).effective ≡ false)
unfolding state_of osns_readlock osns.Locking.set_lock osns.Locking.read_entry
    osns.Locking.read_wait osns.Locking.enter_readlocks fresh_headers
    osns.SimpleList.Users.fresh_header osns.SimpleList.Users.add_list_element_last
    osns.SimpleList.Users.insert_before osns.SimpleList.insert_common_empty_header
    osns.SimpleList.insert_element_after_default osns.SimpleList.same_addr
    osns.SimpleList.init_list_element osns.SimpleList.set_n
one-writer = (refl, refl)

one-reader :
    ((one.locks 1).in_list ≡ true) × ((one.locks 1).type ≡ type_read) × (one.upgrading ≡ false)
unfolding state_of osns_readlock osns.Locking.set_lock osns.Locking.read_entry
    osns.Locking.read_wait osns.Locking.enter_readlocks fresh_headers
    osns.SimpleList.Users.fresh_header osns.SimpleList.Users.add_list_element_last
    osns.SimpleList.Users.insert_before osns.SimpleList.insert_common_empty_header
    osns.SimpleList.insert_element_after_default osns.SimpleList.same_addr
    osns.SimpleList.init_list_element osns.SimpleList.set_n
one-reader = (refl, refl, refl)

osns_writelock-Result_example : WriteResult (osns_writelock 6 9 one) 9 (1 ∷ []) []
osns_writelock-Result_example =
    osns_writelock-Result 6 9 one (1 ∷ []) [] one-IsLocking (one-writer.0) (one-writer.1)
      (omega arith)

osns_upgrade_readlock-Result_example : UpgradeResult (osns_upgrade_readlock 1 one) 1 [] []
osns_upgrade_readlock-Result_example =
    osns_upgrade_readlock-Result 1 one [] [] [] one-IsLocking (one-reader.0) (one-reader.1)
      (one-reader.2) (omega arith) (omega arith)

downgrade-upgrade_example :
    (s' : Locking) × (s'' : Locking) × (osns_upgrade_readlock 1 one ≡ some (returns true s'))
    × (osns_downgradelock 5 1 s' ≡ some (returns true s''))
    × IsLocking s'' [] (1 ∷ [])
downgrade-upgrade_example =
    downgrade-upgrade 5 1 one [] one-IsLocking (one-reader.0) (one-reader.1) (one-reader.2)
      (omega arith)
