-- ===== src/Payload/Clear.antt =====
-- A queue that is cleared: clear_payload_queue of src/lib/ssh/payload.c.
use osns.Prelude.{ℕ, zero, suc, ◌+◌, ◌^◌, ◌<◌, ◌≡◌, refl, arith, List, [], ◌∷◌, length}
use osns.SshString.{done}
use osns.SimpleList.{Addr, Heap}
use osns.SimpleList.Lists.{IsList}
use osns.SimpleList.Take.{first, remove_list_head-first}
use osns.Payload.{clear_loop, clear_payload_queue}

clear_loop-freed :
    (fuel : ℕ) (heap : Heap) (k : ℕ) (xs : List Addr)
    → IsList heap k xs
    → length xs < 2 ^ 64
    → length xs < fuel
    → (heap' : Heap) × (clear_loop fuel k heap ≡ done (xs, heap')) × IsList heap' k []
unfolding clear_loop first
clear_loop-freed zero heap k xs list small enough = elim enough [ ]
clear_loop-freed (suc fuel) heap k [] list small enough =
    let (heap', run, list') = remove_list_head-first heap k [] list small in
    (heap', rw (clear_loop, run) refl, list')
clear_loop-freed (suc fuel) heap k (x ∷ xs) list small enough =
    let (heap1, run1, list1) = remove_list_head-first heap k (x ∷ xs) list small in
    let (heap2, run2, list2) = clear_loop-freed fuel heap1 k xs list1 (omega arith) (omega arith) in
    (heap2, rw (clear_loop, run1, run2) refl, list2)

-- Clearing a queue of fewer than 2 ^ 64 payloads ends; it frees each payload once, the oldest first, and
-- leaves an empty queue.
clear_payload_queue-freed :
    (heap : Heap) (k : ℕ) (xs : List Addr)
    → IsList heap k xs
    → length xs < 2 ^ 64
    → (heap' : Heap) × (clear_payload_queue k heap ≡ done (xs, heap')) × IsList heap' k []
unfolding clear_payload_queue
clear_payload_queue-freed heap k xs list small =
    rw (list.count_eq) (clear_loop-freed (length xs + 1) heap k xs list small (omega arith))
