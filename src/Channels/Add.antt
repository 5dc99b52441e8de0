-- ===== src/Channels/Add.antt =====
-- Channels that are put into the table.
use osns.Prelude.{
  ℕ, ◌+◌, ◌%◌, ◌^◌, ◌<◌, ◌≡◌, refl, ap, sym, subst, ◌∙◌, arith, false, Bool-cases, inl, inr, some,
  List, ◌∷◌, length, ◌==◌, ==_refl,
}
use osns.SimpleList.{Addr, element, same_addr, Heap}
use osns.SimpleList.Add.{add_list_element_first-Frame}
use osns.SimpleList.Users.{add_list_element_first}
use osns.SimpleList.Others.{Apart-ring}
use osns.SimpleHash.{set_data, stored}
use osns.SimpleHash.Table.{IsTable}
use osns.SimpleHash.Change.{update, set_data-IsTable, change-IsTable}
use osns.Channels.{
  Channels, channels_table_size, has_table, put_in_table, write_flags, write_lcnr,
  table_add_ssh_channel,
}
use osns.Channels.Members.{contains}
use osns.Channels.Total.{total, total-update}
use osns.Channels.Invariant.{as_group, number, IsChannels, outside, set_table-has}

-- The rows with a channel at the front of the row of a number.
abbrev pub with_channel : (ℕ → List Addr) → ℕ → ℕ → ℕ → List Addr
with_channel b n i = update b (n % channels_table_size) (element i ∷ b (n % channels_table_size))

contains-with :
    (b : ℕ → List Addr) (n i j m : ℕ)
    → (i == j) ≡ false
    → contains (element j) (with_channel b n i m) ≡ contains (element j) (b m)
unfolding contains same_addr
contains-with b n i j m f =
    let g : (j == i) ≡ false = ground arith in
    elim (Bool-cases (n % channels_table_size == m)) [
      | inl t ↦
          let e : n % channels_table_size ≡ m = ground arith in
          rw (t, g) (ap (λ (k : ℕ). contains (element j) (b k)) e)
      | inr f' ↦ rw f' refl
    ]

-- The list of the row grows, and the hash table with it.
added-IsTable :
    (t : Channels) (b : ℕ → List Addr) (i : ℕ)
    → IsChannels t b
    → has_table (t.flags i) ≡ false
    → length (b (t.channelctr % channels_table_size)) + 1 < 2 ^ 64
    → (heap : Heap) × (add_list_element_first
          (t.channelctr % channels_table_size)
          (element i)
          t.heap
        ≡ some heap)
      × IsTable number (as_group (put_in_table i heap t)) 0 (with_channel b t.channelctr i)
unfolding put_in_table write_flags write_lcnr set_data stored
added-IsTable t b i ok off small =
    let e = element i in
    let g = as_group t in
    let s = t.channelctr % channels_table_size in
    let s_lt : s < channels_table_size = omega arith in
    let apart = outside t b i ok off in
    let list = ok.table.lists s s_lt in
    let (heap, run, grown, frame) =
      add_list_element_first-Frame (t.heap) (0 + s) (b s) e list
        (Apart-ring e (0 + s) (b s) (i, refl) (apart s s_lt)) small in
    let g1 = set_data i (t.channelctr) g in
    let t1 = set_data-IsTable number g 0 b (ok.table) i (t.channelctr) apart in
    let at0 : 0 + s ≡ s = omega arith in
    (
      heap,
      subst (λ (k : ℕ). add_list_element_first k e t.heap ≡ some heap) at0 run,
      change-IsTable number g1 0 b t1 s heap (b s) (e ∷ b s) e s_lt frame (list.owned)
          (ok.table.elements s s_lt) (i, refl) (λ j lt _. apart j lt) grown
          ((i, refl), ok.table.elements s s_lt)
          ((t.channelctr, rw (==_refl i) refl, refl), t1.placed s s_lt),
    )

added-member :
    (t : Channels) (b : ℕ → List Addr) (i : ℕ) (heap : Heap)
    → IsChannels t b
    → (j : ℕ)
    → contains
        (element j)
        (with_channel b t.channelctr i ((put_in_table i heap t).lcnr j % channels_table_size))
      ≡ has_table ((put_in_table i heap t).flags j)
unfolding put_in_table write_flags write_lcnr contains same_addr
added-member t b i heap ok j = elim (Bool-cases (i == j)) [
  | inl e ↦
      let ij : j ≡ i = ground arith in
      rw (ij, ==_refl i, ==_refl (t.channelctr % channels_table_size), ==_refl i)
        (sym (set_table-has (t.flags i)))
  | inr f ↦ rw f (contains-with b (t.channelctr) i j _ f ∙ ok.member j)
]

added-count :
    (t : Channels) (b : ℕ → List Addr) (i : ℕ)
    → IsChannels t b
    → (t.tablecount + 1) % 2 ^ 32
      ≡ total channels_table_size (with_channel b t.channelctr i) % 2 ^ 32
added-count t b i ok =
    let s = t.channelctr % channels_table_size in
    let s_lt : s < channels_table_size = omega arith in
    let more = total-update channels_table_size s b (element i ∷ b s) s_lt in
    omega (arith, more, ok.count_eq)

-- A channel that is not in the table gets the next number and comes to the front of the row of this number.
-- The table stays in order.
pub table_add_ssh_channel-IsChannels :
    (t : Channels) (b : ℕ → List Addr) (i : ℕ)
    → IsChannels t b
    → has_table (t.flags i) ≡ false
    → length (b (t.channelctr % channels_table_size)) + 1 < 2 ^ 64
    → (heap : Heap) × (table_add_ssh_channel i t ≡ some (put_in_table i heap t))
      × IsChannels (put_in_table i heap t) (with_channel b t.channelctr i)
unfolding table_add_ssh_channel put_in_table write_flags write_lcnr
table_add_ssh_channel-IsChannels t b i ok off small =
    let (heap, run, table) = added-IsTable t b i ok off small in
    (
      heap,
      rw (off, run) refl,
      record {
        table = table;
        member = added-member t b i heap ok;
        count_eq = added-count t b i ok;
      },
    )
