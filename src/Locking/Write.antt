-- ===== src/Locking/Write.antt =====
-- A lock for writing.
use osns.Prelude.{
  ℕ, ◌+◌, ◌^◌, ◌<◌, ◌≡◌, refl, ap, sym, subst, ◌∙◌, arith, Bool, true, false, Bool-cases, inl, inr,
  Option, some, List, [], ◌∷◌, ◌++◌, append-nil, append_assoc, All, ◌==◌, ==_refl, length,
  length-append, ltb,
}
use osns.SimpleList.{Addr, head, tail, element, Heap, same_addr}
use osns.SimpleList.Users.{list_element_is_first}
use osns.SimpleList.Links.{Links, Apart, Links-back, All-split}
use osns.SimpleList.Insert.{IsOwned}
use osns.SimpleList.Lists.{IsList, cut_last}
use osns.SimpleList.Others.{IsElement, not_head}
use osns.SimpleList.Pair.{Pair, Pair-swap, add_last-Pair}
use osns.Locking.{
  Lock, Locking, set_lock, up, Outcome, waits, enter_writelocks, join_writers, write_wait,
  write_entry, take_effect, osns_writelock,
}
use osns.Locking.Lists.{
  elements, elements-append, length-elements, IsOut, IsLocking, set_lock-IsLocking, Apart-insert,
}
use osns.Locking.Enter.{InEffect, noted-IsLocking, noted_in_list, element-IsElement}

abbrev pub is_empty {ℓ} : {A : Type ℓ} → List A → Bool
is_empty [] = true
is_empty (x ∷ xs) = false

-- Whether the last element of a list is its first.
pub is_first-last :
    (heap : Heap) (k : ℕ) (ys : List Addr) (e : Addr)
    → IsList heap k (ys ++ (e ∷ []))
    → All IsElement ys
    → list_element_is_first e heap ≡ some (is_empty ys)
unfolding list_element_is_first Links osns.SimpleList.Users.is_addr same_addr
is_first-last heap k [] e list els =
    let (_, at_p, _) = list.links in
    let ((at_h, _), _) = list.owned in rw (at_h, at_p, ==_refl k) refl
is_first-last heap k (y ∷ ys) e list els =
    let (l, p, cut) = cut_last y ys in
    let at_ring : ((y ∷ ys) ++ (e ∷ [])) ++ (tail k ∷ []) ≡ l ++ (p ∷ e ∷ tail k ∷ []) =
      ap (λ t. (t ++ (e ∷ [])) ++ (tail k ∷ [])) cut
      ∙ append_assoc (l ++ (p ∷ [])) (e ∷ []) (tail k ∷ [])
      ∙ append_assoc l (p ∷ []) (e ∷ tail k ∷ []) in
    let (_, at_p, _) =
      Links-back heap (head k ∷ l) p (e ∷ tail k ∷ [])
        (subst (λ t. Links heap (head k ∷ t)) at_ring (list.links)) in
    let (_, ((at_h, _), _)) = All-split (IsOwned heap k) (y ∷ ys) (e ∷ []) (list.owned) in
    let (_, (p_element, _)) = All-split IsElement l (p ∷ []) (subst (All IsElement) cut els) in
    rw (at_h, at_p, not_head p k p_element) refl

-- A lock for writing joins the writers, but does not wait for them: it is in effect where there are no
-- readers, and where it is the first writer, and waits only where there are readers and other writers.
unfoldable pub WriteResult : Option Outcome → ℕ → List ℕ → List ℕ → Type 0
WriteResult o i [] ws = InEffect o i [] (ws ++ (i ∷ []))
WriteResult o i (r ∷ rs) [] = InEffect o i (r ∷ rs) (i ∷ [])
WriteResult o i (r ∷ rs) (w ∷ ws) =
    (s' : Locking) × (o ≡ some (waits s')) × IsLocking s' (r ∷ rs) ((w ∷ ws) ++ (i ∷ []))

pub take_effect-InEffect :
    (i : ℕ) (t : Locking) (rs ws : List ℕ)
    → IsLocking t rs ws
    → InEffect (some (take_effect i t)) i rs ws
unfolding take_effect set_lock
take_effect-InEffect i t rs ws ok = record {
  after = set_lock i (record (t.locks i) { effective = true }) t;
  run_eq = refl;
  effective_eq = rw (==_refl i) refl;
  ok = set_lock-IsLocking t rs ws i _ ok (ok.listed i);
}

write_wait-Result :
    (i : ℕ) (t : Locking) (rs ws : List ℕ)
    → IsLocking t rs (ws ++ (i ∷ []))
    → list_element_is_first (element i) t.heap ≡ some (is_empty ws)
    → WriteResult (write_wait i t) i rs ws
unfolding WriteResult write_wait
write_wait-Result i t [] ws ok is_first =
    let no_readers : ltb 0 (t.readers) ≡ false = ground (arith, ok.readers_eq) in
    rw (write_wait, no_readers) (take_effect-InEffect i t [] (ws ++ (i ∷ [])) ok)
write_wait-Result i t (r ∷ rs) [] ok is_first =
    let readers : ltb 0 (t.readers) ≡ true = ground (arith, ok.readers_eq) in
    rw (write_wait, readers, is_first) (take_effect-InEffect i t (r ∷ rs) (i ∷ []) ok)
write_wait-Result i t (r ∷ rs) (w ∷ ws) ok is_first =
    let readers : ltb 0 (t.readers) ≡ true = ground (arith, ok.readers_eq) in
    (t, rw (write_wait, readers, is_first) refl, ok)

-- A lock that is marked as in a list is put behind the writers.
joined_writers-IsLocking :
    (s : Locking) (rs ws : List ℕ) (i : ℕ) (l : Lock) (heap' : Heap)
    → IsLocking s rs ws
    → Pair heap' s.readlocks s.writelocks (elements rs) (elements (ws ++ (i ∷ [])))
    → length ws + 1 < 2 ^ 32
    → l.in_list ≡ true
    → IsLocking
        (set_lock i l (record s { heap = heap'; writers = up s.writers }))
        rs
        (ws ++ (i ∷ []))
unfolding set_lock up
joined_writers-IsLocking s rs ws i l heap' ok pair small marked = record {
  lists = pair;
  readers_eq = ok.readers_eq;
  writers_eq = omega (arith, ok.writers_eq, length-append ws (i ∷ []));
  listed = λ j h. elim (Bool-cases (i == j)) [
    | inl t ↦ let h' = rw t at h in cc
    | inr f ↦
        let (out_r, out_w) = ok.listed j (rw f at h) in
        (
          out_r,
          Apart-insert j i ws [] f
              (subst (λ t. Apart (element j) (elements t)) (sym (append-nil ws)) out_w),
        )
  ];
}

is_empty-elements : (is : List ℕ) → is_empty (elements is) ≡ is_empty is
unfolding elements
is_empty-elements [] = refl
is_empty-elements (i ∷ is) = refl

enter_writelocks-Pair :
    (s : Locking) (rs ws : List ℕ) (i : ℕ)
    → IsLocking s rs ws
    → IsOut i rs ws
    → length ws + 1 < 2 ^ 32
    → (heap' : Heap) × (enter_writelocks i s
        ≡ some (record s { heap = heap'; writers = up s.writers }))
      × Pair heap' s.readlocks s.writelocks (elements rs) (elements (ws ++ (i ∷ [])))
      × (list_element_is_first (element i) heap' ≡ some (is_empty ws))
unfolding enter_writelocks elements
enter_writelocks-Pair s rs ws i ok (out_r, out_w) small =
    let swapped = Pair-swap (s.heap) (s.readlocks) (s.writelocks) _ _ (ok.lists) in
    let (heap', run, pair) =
      add_last-Pair (s.heap) (s.writelocks) (s.readlocks) (elements ws) (elements rs) (element i)
        swapped (element-IsElement i) out_w out_r (omega (arith, length-elements ws)) in
    (
      heap',
      rw run refl,
      subst (λ l. Pair heap' s.readlocks s.writelocks (elements rs) l)
          (sym (elements-append ws (i ∷ [])))
          (Pair-swap heap' (s.writelocks) (s.readlocks) _ _ pair),
      is_first-last heap' (s.writelocks) (elements ws) (element i) (pair.list) (swapped.elements)
          ∙ ap (λ (b : Bool). some b) (is_empty-elements ws),
    )

join_writers-IsLocking :
    (s : Locking) (rs ws : List ℕ) (i : ℕ)
    → IsLocking s rs ws
    → (s.locks i).in_list ≡ false
    → length ws + 1 < 2 ^ 32
    → (t : Locking) × (join_writers i s ≡ some t)
      × IsLocking t rs (ws ++ (i ∷ []))
      × (list_element_is_first (element i) t.heap ≡ some (is_empty ws))
      × ((t.locks i).effective ≡ (s.locks i).effective)
unfolding join_writers set_lock
join_writers-IsLocking s rs ws i ok out small =
    let (heap', run, pair, is_first) = enter_writelocks-Pair s rs ws i ok (ok.listed i out) small in
    let u : Locking = record s { heap = heap'; writers = up s.writers } in
    (
      set_lock i (record (u.locks i) { in_list = true }) u,
      rw (join_writers, out, run) refl,
      joined_writers-IsLocking s rs ws i _ heap' ok pair small refl,
      is_first,
      rw (==_refl i) refl,
    )

write_entry-Result :
    (i : ℕ) (s : Locking) (rs ws : List ℕ)
    → IsLocking s rs ws
    → (s.locks i).in_list ≡ false
    → (s.locks i).effective ≡ false
    → length ws + 1 < 2 ^ 32
    → WriteResult (write_entry i s) i rs ws
unfolding write_entry
write_entry-Result i s rs ws ok out idle small =
    let (t, run, joined, is_first, same) = join_writers-IsLocking s rs ws i ok out small in
    let still : (t.locks i).effective ≡ false = same ∙ idle in
    rw (write_entry, run, still) (write_wait-Result i t rs ws joined is_first)

noted_effective :
    (s : Locking) (self i : ℕ) (b : Bool)
    → (s.locks i).effective ≡ b
    → ((set_lock i (record (s.locks i) { thread = self }) s).locks i).effective ≡ b
unfolding set_lock
noted_effective s self i b h = rw (==_refl i) h

-- A lock for writing that is in no list joins the writers. It is in effect at once if there are no
-- readers, however many writers are in front of it, and if it is the first writer, however many readers
-- there are. It waits where there are readers and writers in front of it.
pub osns_writelock-Result :
    (self i : ℕ) (s : Locking) (rs ws : List ℕ)
    → IsLocking s rs ws
    → (s.locks i).in_list ≡ false
    → (s.locks i).effective ≡ false
    → length ws + 1 < 2 ^ 32
    → WriteResult (osns_writelock self i s) i rs ws
unfolding osns_writelock
osns_writelock-Result self i s rs ws ok out idle small =
    write_entry-Result i (set_lock i (record (s.locks i) { thread = self }) s) rs ws
      (noted-IsLocking s rs ws self i ok) (noted_in_list s self i false out)
      (noted_effective s self i false idle) small
