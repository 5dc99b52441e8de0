-- ===== src/Channels/Start.antt =====
-- Channels that are added with their callback `start`, and removed with `close`.
use osns.Prelude.{
  ℕ, ◌+◌, ◌%◌, ◌^◌, ◌<◌, ◌≡◌, refl, ap, sym, subst, ◌∙◌, arith, Bool, true, false, Bool-cases, inl,
  inr, some, List, [], ◌∷◌, length, ◌==◌, ==_refl,
}
use mathlib.Core.Path.{fun_ext}
use osns.SimpleList.{Addr, element, Heap}
use osns.SimpleHash.Change.{update}
use osns.Channels.{
  Channels, channels_table_size, has_table, take_from_table, put_in_table, write_flags, write_lcnr,
  set_table, table_add_ssh_channel, table_remove_ssh_channel, add_ssh_channel, started, closes,
  remove_ssh_channel,
}
use osns.Channels.Members.{Split, contains-Split}
use osns.Channels.Invariant.{IsChannels, clear_table-has, set_table-has}
use osns.Channels.Add.{with_channel, table_add_ssh_channel-IsChannels}
use osns.Channels.Remove.{row_of, without, remove-at}

-- The other flags of a channel may change.
pub write_flags-IsChannels :
    (t : Channels) (b : ℕ → List Addr) (i f : ℕ)
    → IsChannels t b
    → has_table f ≡ has_table (t.flags i)
    → IsChannels (write_flags i f t) b
unfolding write_flags
write_flags-IsChannels t b i f ok same = record {
  table = ok.table;
  member = λ j. elim (Bool-cases (i == j)) [
    | inr g ↦ rw g (ok.member j)
    | inl e ↦
        let ij : i ≡ j = ground arith in
        rw e (ok.member j ∙ ap (λ (n : ℕ). has_table (t.flags n)) (sym ij) ∙ sym same)
  ];
  count_eq = ok.count_eq;
}

-- The rows after a channel was put into the table and taken out again.
back_again :
    (b : ℕ → List Addr) (n i s : ℕ)
    → s ≡ n % channels_table_size
    → update (with_channel b n i) s (b (n % channels_table_size)) ≡ b
back_again b n i s at = fun_ext (λ j. elim (Bool-cases (s == j)) [
  | inl t ↦ let e : n % channels_table_size ≡ j = ground arith in rw t (ap (λ (k : ℕ). b k) e)
  | inr f ↦ let g : (n % channels_table_size == j) ≡ false = ground arith in rw (f, g) refl
])

removed_flags :
    (t : Channels) (i : ℕ) (heap : Heap) → has_table ((take_from_table i heap t).flags i) ≡ false
unfolding take_from_table write_flags
removed_flags t i heap = rw (==_refl i) (clear_table-has (t.flags i))

written : (t : Channels) (i f : ℕ) → (write_flags i f t).flags i ≡ f
unfolding write_flags
written t i f = rw (==_refl i) refl

put_flags :
    (t : Channels) (i : ℕ) (heap : Heap) → (put_in_table i heap t).flags i ≡ set_table (t.flags i)
unfolding put_in_table write_flags
put_flags t i heap = rw (==_refl i) refl

put_lcnr :
    (t : Channels) (i f : ℕ) (heap : Heap)
    → (write_flags i f (put_in_table i heap t)).lcnr i ≡ t.channelctr
unfolding put_in_table write_flags write_lcnr
put_lcnr t i f heap = rw (==_refl i) refl

add-step :
    (start : ℕ → ℕ → Bool × ℕ) (i f : ℕ) (result : Bool) (t t1 : Channels)
    → table_add_ssh_channel i t ≡ some t1
    → start i (t1.flags i) ≡ (result, f)
    → add_ssh_channel start i t ≡ started i (result, f) t1
unfolding add_ssh_channel
add-step start i f result t t1 run gives = rw (run, gives) refl

failed-step :
    (i f : ℕ) (t t' : Channels)
    → table_remove_ssh_channel i (write_flags i f t) ≡ some t'
    → started i (false, f) t ≡ some (false, t')
unfolding started
failed-step i f t t' run = rw run refl

-- A channel at the front of its row is taken out.
take_front :
    (t : Channels) (b : ℕ → List Addr) (n i : ℕ)
    → t.lcnr i ≡ n
    → IsChannels t (with_channel b n i)
    → has_table (t.flags i) ≡ true
    → length (b (n % channels_table_size)) + 1 < 2 ^ 64
    → (heap : Heap) × (table_remove_ssh_channel i t ≡ some (take_from_table i heap t))
      × IsChannels (take_from_table i heap t) b
take_front t b n i at_n ok on small =
    let s = n % channels_table_size in
    let row : row_of t i ≡ s = ap (λ (m : ℕ). m % 64) at_n in
    let here : with_channel b n i (row_of t i) ≡ element i ∷ b s = rw (row, ==_refl s) refl in
    let small' = subst (λ (l : List Addr). length l < 2 ^ 64) (sym here) (omega arith) in
    let (heap, run, ok') =
      remove-at t (with_channel b n i) i (record { before = []; behind = b s; whole_eq = here }) ok
        on small' in
    (
      heap,
      run,
      subst (IsChannels (take_from_table i heap t)) (back_again b n i (row_of t i) row) ok',
    )

-- What `start` does with the flags of a new channel.
abbrev pub start_new : (ℕ → ℕ → Bool × ℕ) → ℕ → Channels → Bool × ℕ
start_new start i t = start i (set_table (t.flags i))

-- A new channel whose callback fails, and leaves the flag of the table: the result is -1, and the channel is
-- not in the table, the rows of which and their number are as before. The number of the channel is used up.
pub add_ssh_channel-failed :
    (start : ℕ → ℕ → Bool × ℕ) (t : Channels) (b : ℕ → List Addr) (i f : ℕ)
    → IsChannels t b
    → has_table (t.flags i) ≡ false
    → length (b (t.channelctr % channels_table_size)) + 1 < 2 ^ 64
    → start_new start i t ≡ (false, f)
    → has_table f ≡ true
    → (t' : Channels) × (add_ssh_channel start i t ≡ some (false, t'))
      × IsChannels t' b
      × (has_table (t'.flags i) ≡ false)
      × (t'.channelctr ≡ (t.channelctr + 1) % 2 ^ 32)
unfolding take_from_table put_in_table write_flags write_lcnr
add_ssh_channel-failed start t b i f ok off small fails on =
    let (heap, run, ok1) = table_add_ssh_channel-IsChannels t b i ok off small in
    let t1 = put_in_table i heap t in
    let at_i = put_flags t i heap in
    let kept = on ∙ sym (ap has_table at_i ∙ set_table-has (t.flags i)) in
    let ok2 = write_flags-IsChannels t1 (with_channel b t.channelctr i) i f ok1 kept in
    let (heap', run', ok3) =
      take_front (write_flags i f t1) b (t.channelctr) i (put_lcnr t i f heap) ok2
        (ap has_table (written t1 i f) ∙ on) small in
    (
      take_from_table i heap' (write_flags i f t1),
      add-step start i f false t t1 run (ap (start i) at_i ∙ fails)
          ∙ failed-step i f t1 (take_from_table i heap' (write_flags i f t1)) run',
      ok3,
      removed_flags (write_flags i f t1) i heap',
      refl,
    )

-- A new channel whose callback succeeds, and leaves the flag of the table: the result is 0, the channel
-- stands at the front of the row of its number, which is the next one, and the table is in order.
pub add_ssh_channel-IsChannels :
    (start : ℕ → ℕ → Bool × ℕ) (t : Channels) (b : ℕ → List Addr) (i f : ℕ)
    → IsChannels t b
    → has_table (t.flags i) ≡ false
    → length (b (t.channelctr % channels_table_size)) + 1 < 2 ^ 64
    → start_new start i t ≡ (true, f)
    → has_table f ≡ true
    → (t' : Channels) × (add_ssh_channel start i t ≡ some (true, t'))
      × IsChannels t' (with_channel b t.channelctr i)
      × (t'.lcnr i ≡ t.channelctr)
unfolding started
add_ssh_channel-IsChannels start t b i f ok off small starts on =
    let (heap, run, ok1) = table_add_ssh_channel-IsChannels t b i ok off small in
    let t1 = put_in_table i heap t in
    let at_i = put_flags t i heap in
    let kept = on ∙ sym (ap has_table at_i ∙ set_table-has (t.flags i)) in
    (
      write_flags i f t1,
      add-step start i f true t t1 run (ap (start i) at_i ∙ starts),
      write_flags-IsChannels t1 (with_channel b t.channelctr i) i f ok1 kept,
      put_lcnr t i f heap,
    )

-- A channel that is in the table is removed, whether or not it is closed first, where the callback leaves
-- the flag of the table: it is taken out of the row of its number, and has the flag no more. The other
-- channels stay in their rows and their order.
pub remove_ssh_channel-IsChannels :
    (close : ℕ → ℕ → ℕ → ℕ) (t : Channels) (b : ℕ → List Addr) (i f : ℕ)
    → IsChannels t b
    → has_table (t.flags i) ≡ true
    → has_table (close i f (t.flags i)) ≡ true
    → length (b (row_of t i)) < 2 ^ 64
    → (at : Split (element i) (b (row_of t i))) × (t' : Channels) × (remove_ssh_channel close i f t
        ≡ some t')
      × IsChannels t' (without t b i at)
      × (has_table (t'.flags i) ≡ false)
unfolding remove_ssh_channel write_flags
remove_ssh_channel-IsChannels close t b i f ok on kept small =
    let at = contains-Split (element i) (b (row_of t i)) (ok.member i ∙ on) in
    elim (Bool-cases (closes f)) [
      | inl c ↦
          let t1 = write_flags i (close i f (t.flags i)) t in
          let ok1 = write_flags-IsChannels t b i _ ok (kept ∙ sym on) in
          let (heap, run, ok2) = remove-at t1 b i at ok1 (rw (==_refl i) kept) small in
          (at, take_from_table i heap t1, rw (c, run) refl, ok2, removed_flags t1 i heap)
      | inr n ↦
          let (heap, run, ok1) = remove-at t b i at ok on small in
          (at, take_from_table i heap t, rw (n, run) refl, ok1, removed_flags t i heap)
    ]
