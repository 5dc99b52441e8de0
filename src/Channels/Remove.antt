-- ===== src/Channels/Remove.antt =====
-- Channels that are taken out of the table.
use osns.Prelude.{
  ℕ, ◌+◌, ◌-◌, ◌%◌, ◌^◌, ◌<◌, ◌≡◌, refl, ap, sym, subst, ◌∙◌, arith, true, false, Bool-cases, inl,
  inr, some, List, ◌∷◌, ◌++◌, length, length-append, ◌==◌, ==_refl,
}
use osns.SimpleList.{Addr, element, same_addr, Heap}
use osns.SimpleList.Links.{Apart}
use osns.SimpleHash.Change.{update}
use osns.SimpleHash.Remove.{take-IsTable}
use osns.Channels.{
  Channels, channels_table_size, has_table, take_from_table, write_flags, table_remove_ssh_channel,
}
use osns.Channels.Members.{Split, contains, Apart-contains, contains-other}
use osns.Channels.Total.{total, total-update}
use osns.Channels.Invariant.{as_group, number, IsChannels, clear_table-has}

-- The row of the channel.
abbrev pub row_of : Channels → ℕ → ℕ
row_of t i = t.lcnr i % channels_table_size

-- The rows without a channel, that stood between `before` and `behind` in the row of its number.
abbrev pub without :
    (t : Channels) (b : ℕ → List Addr) (i : ℕ) → Split (element i) (b (row_of t i)) → ℕ → List Addr
without t b i at = update b (row_of t i) (at.before ++ at.behind)

pub contains-without :
    (t : Channels) (b : ℕ → List Addr) (i j m : ℕ) (at : Split (element i) (b (row_of t i)))
    → (i == j) ≡ false
    → contains (element j) (without t b i at m) ≡ contains (element j) (b m)
unfolding same_addr
contains-without t b i j m at f =
    let g : (j == i) ≡ false = ground arith in
    elim (Bool-cases (row_of t i == m)) [
      | inr f' ↦ rw f' refl
      | inl h ↦
          let e : row_of t i ≡ m = ground arith in
          let same = contains-other (element j) (element i) (at.before) (at.behind) g in
          rw h (
            sym same
            ∙ ap (contains (element j)) (sym (at.whole_eq))
            ∙ ap (λ (k : ℕ). contains (element j) (b k)) e)
    ]

without-member :
    (t : Channels) (b : ℕ → List Addr) (i : ℕ) (at : Split (element i) (b (row_of t i)))
    (heap : Heap)
    → IsChannels t b
    → Apart (element i) (without t b i at (row_of t i))
    → (j : ℕ)
    → contains
        (element j)
        (without t b i at ((take_from_table i heap t).lcnr j % channels_table_size))
      ≡ has_table ((take_from_table i heap t).flags j)
unfolding take_from_table write_flags
without-member t b i at heap ok apart j = elim (Bool-cases (i == j)) [
  | inr f ↦ rw f (contains-without t b i j _ at f ∙ ok.member j)
  | inl e ↦
      let ij : j ≡ i = ground arith in
      subst
        (λ (n : ℕ).
          contains (element n) (without t b i at (t.lcnr n % channels_table_size))
          ≡ has_table ((take_from_table i heap t).flags n))
        (sym ij)
        (Apart-contains (element i) (without t b i at (row_of t i)) apart
          ∙ rw (==_refl i) (sym (clear_table-has (t.flags i))))
]

without-count :
    (t : Channels) (b : ℕ → List Addr) (i : ℕ) (at : Split (element i) (b (row_of t i)))
    → IsChannels t b
    → (t.tablecount + (2 ^ 32 - 1)) % 2 ^ 32 ≡ total channels_table_size (without t b i at) % 2 ^ 32
without-count t b i at ok =
    let s = row_of t i in
    let s_lt : s < channels_table_size = omega arith in
    let more = total-update channels_table_size s b (at.before ++ at.behind) s_lt in
    let whole : length (b s) ≡ length (at.before ++ at.behind) + 1 = omega (
      arith,
      ap (λ (l : List Addr). length l) (at.whole_eq),
      length-append (at.before) (at.behind),
      length-append (at.before) (element i ∷ at.behind),
    ) in
    omega (arith, more, ok.count_eq, whole)

-- A channel that is in the table, at a place in the row of its number, is taken out.
pub remove-at :
    (t : Channels) (b : ℕ → List Addr) (i : ℕ) (at : Split (element i) (b (row_of t i)))
    → IsChannels t b
    → has_table (t.flags i) ≡ true
    → length (b (row_of t i)) < 2 ^ 64
    → (heap : Heap) × (table_remove_ssh_channel i t ≡ some (take_from_table i heap t))
      × IsChannels (take_from_table i heap t) (without t b i at)
unfolding table_remove_ssh_channel take_from_table write_flags
remove-at t b i at ok on small =
    let s = row_of t i in
    let s_lt : s < channels_table_size = omega arith in
    let (heap, run, table, _, _, apart) =
      take-IsTable number (as_group t) 0 b s (at.before) (at.behind) (element i) (ok.table) s_lt
        (at.whole_eq) small in
    (
      heap,
      rw (on, run) refl,
      record {
        table = table;
        member = without-member t b i at heap ok (apart s s_lt);
        count_eq = without-count t b i at ok;
      },
    )
