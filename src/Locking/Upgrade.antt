-- ===== src/Locking/Upgrade.antt =====
-- A lock for reading that is upgraded, and then downgraded.
use osns.Prelude.{
  ℕ, ◌+◌, ◌^◌, ◌<◌, ◌≡◌, refl, ap, sym, subst, ◌∙◌, arith, Bool, true, false, Bool-cases, inl, inr,
  Option, some, List, [], ◌∷◌, ◌++◌, ◌==◌, ==_refl, length, length-append, if◌then◌else◌, ltb,
  ◌>>=◌, not,
}
use osns.SimpleList.{element, Heap}
use osns.SimpleList.Pair.{Pair, Pair-swap, add_first-Pair}
use osns.Locking.{
  LockType, type_read, Call, prewritelock, Lock, Locking, set_lock, up, down, Outcome, waits,
  returns, leave_readlocks, take_effect, join_writers, osns_prewritelock,
}
use osns.Locking.Calls.{
  quit_readers, lead_writelocks, upgrade_wait, upgrade_start, as_writelock, is_read,
  osns_upgrade_readlock, osns_downgradelock, run,
}
use osns.Locking.Lists.{
  elements, length-elements, IsOut, IsLocking, set_lock-IsLocking, Apart-insert, Apart-without,
}
use osns.Locking.Enter.{InEffect, noted-IsLocking, noted_in_list, element-IsElement}
use osns.Locking.Write.{take_effect-InEffect}
use osns.Locking.Leave.{leave_readlocks-Pair}

-- A reader has become the first of the writers.
upgraded-IsLocking :
    (s : Locking) (ys zs ws : List ℕ) (i : ℕ) (l : Lock) (heap' : Heap) (b : Bool)
    → IsLocking s (ys ++ (i ∷ zs)) ws
    → Pair heap' s.readlocks s.writelocks (elements (ys ++ zs)) (elements (i ∷ ws))
    → length (ys ++ (i ∷ zs)) < 2 ^ 32
    → length ws + 1 < 2 ^ 32
    → l.in_list ≡ true
    → IsLocking
        (set_lock i l (record s {
          heap = heap';
          readers = down s.readers;
          writers = up s.writers;
          upgrading = b;
        }))
        (ys ++ zs)
        (i ∷ ws)
unfolding set_lock up down
upgraded-IsLocking s ys zs ws i l heap' b ok pair few_r few_w marked = record {
  lists = pair;
  readers_eq = omega (arith, ok.readers_eq, length-append ys zs, length-append ys (i ∷ zs));
  writers_eq = omega (arith, ok.writers_eq);
  listed = λ j h. elim (Bool-cases (i == j)) [
    | inl t ↦ let h' = rw t at h in cc
    | inr f ↦
        let (out_r, out_w) = ok.listed j (rw f at h) in
        (Apart-without j i ys zs out_r, Apart-insert j i [] ws f out_w)
  ];
}

quit_readers-listed :
    (i : ℕ) (s : Locking) → (s.locks i).in_list ≡ true → quit_readers i s ≡ leave_readlocks i s
unfolding quit_readers
quit_readers-listed i s marked = ap (λ (b : Bool). if b then leave_readlocks i s else some s) marked

lead_writelocks-Pair :
    (s : Locking) (rs ws : List ℕ) (i : ℕ)
    → Pair s.heap s.readlocks s.writelocks (elements rs) (elements ws)
    → IsOut i rs ws
    → length ws + 1 < 2 ^ 32
    → (heap' : Heap) × (lead_writelocks i s
        ≡ some (record s { heap = heap'; writers = up s.writers }))
      × Pair heap' s.readlocks s.writelocks (elements rs) (elements (i ∷ ws))
unfolding lead_writelocks elements
lead_writelocks-Pair s rs ws i lists (out_r, out_w) small =
    let (heap', run, pair) =
      add_first-Pair (s.heap) (s.writelocks) (s.readlocks) (elements ws) (elements rs) (element i)
        (Pair-swap (s.heap) (s.readlocks) (s.writelocks) _ _ lists) (element-IsElement i) out_w
        out_r (omega (arith, length-elements ws)) in
    (heap', rw run refl, Pair-swap heap' (s.writelocks) (s.readlocks) _ _ pair)

-- The lists after the upgrade has begun, and the fields of the lock.
upgrade_start-IsLocking :
    (i : ℕ) (s : Locking) (ys zs ws : List ℕ)
    → IsLocking s (ys ++ (i ∷ zs)) ws
    → (s.locks i).in_list ≡ true
    → length (ys ++ (i ∷ zs)) < 2 ^ 32
    → length ws + 1 < 2 ^ 32
    → (t : Locking) × (upgrade_start i s ≡ some (upgrade_wait i t))
      × IsLocking t (ys ++ zs) (i ∷ ws)
      × ((t.locks i).in_list ≡ true)
      × ((t.locks i).downgrade ≡ some prewritelock)
unfolding upgrade_start set_lock as_writelock
upgrade_start-IsLocking i s ys zs ws ok marked few_r few_w =
    let s1 : Locking = record s { upgrading = true } in
    let (heap1, run1, pair1, out) = leave_readlocks-Pair s1 ys zs ws i (ok.lists) few_r in
    let s2 : Locking = record s1 { heap = heap1; readers = down s.readers } in
    let (heap2, run2, pair2) = lead_writelocks-Pair s2 (ys ++ zs) ws i pair1 out few_w in
    let s3 : Locking = record s2 { heap = heap2; writers = up s.writers } in
    let l : Lock = record (as_writelock (s3.locks i)) { in_list = true; upgraded = true } in
    (
      set_lock i l s3,
      rw (upgrade_start, quit_readers-listed i s1 marked, run1, run2) refl,
      upgraded-IsLocking s ys zs ws i l heap2 true ok pair2 few_r few_w refl,
      rw (==_refl i) refl,
      rw (==_refl i) refl,
    )

-- A reader that is upgraded is in effect where it was the only one, and else waits for the others, as the
-- first of the writers.
unfoldable pub UpgradeResult : Option Outcome → ℕ → List ℕ → List ℕ → Type 0
UpgradeResult o i [] ws = InEffect o i [] (i ∷ ws)
UpgradeResult o i (r ∷ rs) ws =
    (s' : Locking) × (o ≡ some (waits s')) × IsLocking s' (r ∷ rs) (i ∷ ws)

upgrade_wait-Result :
    (i : ℕ) (t : Locking) (rs ws : List ℕ)
    → IsLocking t rs (i ∷ ws)
    → UpgradeResult (some (upgrade_wait i t)) i rs ws
unfolding UpgradeResult upgrade_wait
upgrade_wait-Result i t [] ws ok =
    let no_readers : ltb 0 (t.readers) ≡ false = ground (arith, ok.readers_eq) in
    rw (upgrade_wait, no_readers) (take_effect-InEffect i t [] (i ∷ ws) ok)
upgrade_wait-Result i t (r ∷ rs) ws ok =
    let readers : ltb 0 (t.readers) ≡ true = ground (arith, ok.readers_eq) in
    (t, rw (upgrade_wait, readers) refl, ok)

upgrade-start :
    (i : ℕ) (s : Locking)
    → (s.locks i).type ≡ type_read
    → s.upgrading ≡ false
    → osns_upgrade_readlock i s ≡ upgrade_start i s
unfolding osns_upgrade_readlock is_read
upgrade-start i s reads free =
    ap
      (λ (y : LockType).
        if not (is_read y)
        then some (returns true s)
        else if s.upgrading
        then some (returns false s)
        else upgrade_start i s)
      reads
    ∙ ap (λ (b : Bool). if b then some (returns false s) else upgrade_start i s) free

-- A lock for reading, which is among the readers and which no other upgrade is in the way of, leaves them for
-- the front of the writers. It is in effect if there are no other readers, and else waits for them.
pub osns_upgrade_readlock-Result :
    (i : ℕ) (s : Locking) (ys zs ws : List ℕ)
    → IsLocking s (ys ++ (i ∷ zs)) ws
    → (s.locks i).in_list ≡ true
    → (s.locks i).type ≡ type_read
    → s.upgrading ≡ false
    → length (ys ++ (i ∷ zs)) < 2 ^ 32
    → length ws + 1 < 2 ^ 32
    → UpgradeResult (osns_upgrade_readlock i s) i (ys ++ zs) ws
osns_upgrade_readlock-Result i s ys zs ws ok marked reads free few_r few_w =
    let (t, run, upgraded, _, _) = upgrade_start-IsLocking i s ys zs ws ok marked few_r few_w in
    subst (λ o. UpgradeResult o i (ys ++ zs) ws) (sym (upgrade-start i s reads free ∙ run))
      (upgrade_wait-Result i t (ys ++ zs) ws upgraded)

join_writers-listed : (i : ℕ) (s : Locking) → (s.locks i).in_list ≡ true → join_writers i s ≡ some s
unfolding join_writers
join_writers-listed i s marked = rw (join_writers, marked) refl

-- The downgrade of a lock whose field `downgrade` is that of `prelock`.
downgrade-IsLocking :
    (self i : ℕ) (s : Locking) (rs ws : List ℕ)
    → IsLocking s rs ws
    → (s.locks i).in_list ≡ true
    → (s.locks i).downgrade ≡ some prewritelock
    → (s' : Locking) × (osns_downgradelock self i s ≡ some (returns true s')) × IsLocking s' rs ws
unfolding osns_downgradelock run osns_prewritelock
downgrade-IsLocking self i s rs ws ok marked field =
    let s1 = set_lock i (record (s.locks i) { thread = self }) s in
    let joined : join_writers i s1 ≡ some s1 =
      join_writers-listed i s1 (noted_in_list s self i true marked) in
    (
      s1,
      ap (λ (o : Option Call). o >>= λ f. run f self i s) field
          ∙ ap (λ (o : Option Locking). o >>= λ t. some (returns true t)) joined,
      noted-IsLocking s rs ws self i ok,
    )

upgrade_wait-free :
    (i : ℕ) (t : Locking) → ltb 0 t.readers ≡ false → upgrade_wait i t ≡ take_effect i t
unfolding upgrade_wait
upgrade_wait-free i t free = rw (upgrade_wait, free) refl

effect-fields :
    (i : ℕ) (t : Locking) (f : Option Call)
    → (t.locks i).in_list ≡ true
    → (t.locks i).downgrade ≡ f
    → (s' : Locking) × (take_effect i t ≡ returns true s')
      × ((s'.locks i).in_list ≡ true)
      × ((s'.locks i).downgrade ≡ f)
      × ((rs ws : List ℕ) → IsLocking t rs ws → IsLocking s' rs ws)
unfolding take_effect set_lock
effect-fields i t f marked field = (
  set_lock i (record (t.locks i) { effective = true }) t,
  refl,
  rw (==_refl i) marked,
  rw (==_refl i) field,
  λ rs ws ok. set_lock-IsLocking t rs ws i _ ok (ok.listed i),
)

-- A lock for reading that is the only one, is upgraded, and is then downgraded, stays a writer: both calls
-- return 0, and there is no reader after them.
pub downgrade-upgrade :
    (self i : ℕ) (s : Locking) (ws : List ℕ)
    → IsLocking s (i ∷ []) ws
    → (s.locks i).in_list ≡ true
    → (s.locks i).type ≡ type_read
    → s.upgrading ≡ false
    → length ws + 1 < 2 ^ 32
    → (s' : Locking) × (s'' : Locking) × (osns_upgrade_readlock i s ≡ some (returns true s'))
      × (osns_downgradelock self i s' ≡ some (returns true s''))
      × IsLocking s'' [] (i ∷ ws)
downgrade-upgrade self i s ws ok marked reads free few =
    let (t, start, upgraded, t_marked, t_field) =
      upgrade_start-IsLocking i s [] [] ws ok marked (omega arith) few in
    let (s', effect, s_marked, s_field, keep) = effect-fields i t _ t_marked t_field in
    let no_readers : ltb 0 (t.readers) ≡ false = ground (arith, upgraded.readers_eq) in
    let (s'', down_run, final) =
      downgrade-IsLocking self i s' [] (i ∷ ws) (keep [] (i ∷ ws) upgraded) s_marked s_field in
    (
      s',
      s'',
      upgrade-start i s reads free
          ∙ start
          ∙ ap (λ (o : Outcome). some o) (upgrade_wait-free i t no_readers ∙ effect),
      down_run,
      final,
    )
