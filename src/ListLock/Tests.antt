-- ===== src/ListLock/Tests.antt =====
-- The list lock with concrete threads.
use osns.Prelude.{◌≤◌, ◌≡◌, ◌⊎◌, arith, [], ◌∷◌}
use osns.ListLock.{ListLock}
use osns.ListLock.Threads.{Threads, Reach, idle, writing, read_waiting, begin, later, write, read}
use osns.ListLock.Exclusion.{writers, readers, start, exclusion}

-- One thread has written its bit, and the other waits to read.
abbrev blocked : Threads
blocked = record {
  lock = record { value = 2; threadidw = 1; threadidpw = 0 };
  places = writing ∷ read_waiting ∷ [];
}

blocked_reached : Reach (start 2) blocked
unfolding osns.ListLock.Exclusion.idlers osns.ListLock.write_lock_list osns.ListLock.read_lock_list
    osns.ListLock.Threads.after_write osns.ListLock.Threads.after_read
blocked_reached =
    later (later begin (write (record { value = 0; threadidw = 0; threadidpw = 0 }) [] (idle ∷ [])))
      (read (record { value = 2; threadidw = 1; threadidpw = 0 }) (writing ∷ []) [])

exclusion_example :
    (writers (blocked.places) ≤ 1)
    × ((writers (blocked.places) ≡ 0) ⊎ (readers (blocked.places) ≡ 0))
exclusion_example = exclusion 2 blocked (omega arith) blocked_reached
