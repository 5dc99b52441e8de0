-- ===== src/Channels/Invariant.antt =====
-- What it is for the table of channels to be in order.
use osns.Prelude.{
  ℕ, ◌/◌, ◌%◌, ◌^◌, ◌<◌, ◌≡◌, refl, ap, subst, ◌∙◌, arith, true, false, Bool-cases, inl, inr,
  Option, none, some, List, ◌==◌,
}
use osns.SimpleList.{Addr, head, tail, element, same_addr}
use osns.SimpleList.Links.{Apart}
use osns.SimpleList.Others.{All-map}
use osns.SimpleHash.{Group, stored}
use osns.SimpleHash.Table.{InSlot, IsTable}
use osns.Channels.{Channels, channels_table_size, has_table, set_table, clear_table}
use osns.Channels.Members.{contains, contains-Apart}
use osns.Channels.Total.{total}

-- The table as a hash table, in which the channels are filed under their numbers.
abbrev pub as_group : Channels → Group
as_group t = record { heap = t.heap; data_of = t.lcnr; len = channels_table_size; hash = some 0 }

abbrev pub number : ℕ → ℕ
number n = n

-- The rows are `b`: each channel that has the flag, and no other, is in the row of its number, and
-- `tablecount` is their number modulo 2 ^ 32.
pub record IsChannels (t : Channels) (b : ℕ → List Addr) : Type 0 where
  pub table : IsTable number (as_group t) 0 b
  pub member :
      (i : ℕ) → contains (element i) (b (t.lcnr i % channels_table_size)) ≡ has_table (t.flags i)
  pub count_eq : t.tablecount ≡ total channels_table_size b % 2 ^ 32

from_some : Option ℕ → ℕ
from_some none = 0
from_some (some n) = n

-- A channel is not in the row of another number.
not_stored :
    (t : Channels) (i j d : ℕ) (a : Addr)
    → (t.lcnr i % channels_table_size == j) ≡ false
    → stored a (as_group t) ≡ some d
    → d % channels_table_size ≡ j
    → same_addr (element i) a ≡ false
unfolding same_addr stored from_some
not_stored t i j d (head k) f at_a at_j = refl
not_stored t i j d (tail k) f at_a at_j = refl
not_stored t i j d (element k) f at_a at_j = elim (Bool-cases (i == k)) [
  | inr g ↦ g
  | inl e ↦
      let ik : i ≡ k = ground arith in
      let same : t.lcnr i ≡ d = ap t.lcnr ik ∙ ap from_some at_a in
      let at_j' : t.lcnr i % channels_table_size ≡ j = ap (λ (n : ℕ). n % 64) same ∙ at_j in
      absurd (ground arith)
]

-- A channel without the flag is in no row.
pub outside :
    (t : Channels) (b : ℕ → List Addr) (i : ℕ)
    → IsChannels t b
    → has_table (t.flags i) ≡ false
    → (j : ℕ) → j < channels_table_size
    → Apart (element i) (b j)
outside t b i ok off j lt = elim (Bool-cases (t.lcnr i % channels_table_size == j)) [
  | inl e ↦
      let at_j : t.lcnr i % channels_table_size ≡ j = ground arith in
      subst (λ (n : ℕ). Apart (element i) (b n)) at_j
        (contains-Apart (element i) (b (t.lcnr i % channels_table_size)) (ok.member i ∙ off))
  | inr f ↦
      All-map (InSlot number (as_group t) j) (λ a. same_addr (element i) a ≡ false)
        (λ a (d, at_a, at_j). not_stored t i j d a f at_a at_j) (b j) (ok.table.placed j lt)
]

pub set_table-has : (f : ℕ) → has_table (set_table f) ≡ true
unfolding has_table set_table
set_table-has f = elim (Bool-cases (f / 2 % 2 == 1)) [
  | inl t ↦ rw (t, t) refl
  | inr n ↦ rw n (ground arith)
]

pub clear_table-has : (f : ℕ) → has_table (clear_table f) ≡ false
unfolding has_table clear_table
clear_table-has f = elim (Bool-cases (f / 2 % 2 == 1)) [
  | inl t ↦ rw t (ground arith)
  | inr n ↦ rw (n, n) refl
]
