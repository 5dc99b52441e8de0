-- ===== src/Channels/Tests.antt =====
-- The table of channels at work.
use osns.Prelude.{
  ℕ, ◌+◌, ◌%◌, ◌^◌, ◌<◌, ◌∙◌, ◌≡◌, refl, sym, ap, subst, arith, Bool, true, false, Option, none,
  some, List, [], ◌∷◌, length, Bool-cases, inl, inr, ◌==◌,
}
use osns.SshString.{done}
use osns.SimpleList.{
  Addr, head, tail, element, ElementOps, standalone_element_ops, empty_header_ops,
  system_head_element_ops, system_tail_element_ops,
}
use osns.SimpleHash.Table.{IsTable}
use osns.Channels.{
  Channels, channels_table_size, has_table, add_ssh_channel, remove_ssh_channel,
  lookup_ssh_channel_for_cb, lookup_ssh_channel_for_iocb, walk_ssh_channels,
  clear_ssh_channels_table, init_ssh_channels_table,
}
use osns.Channels.Members.{Split, contains}
use osns.Channels.Invariant.{as_group, number, IsChannels}
use osns.Channels.Init.{new_table, init_ssh_channels_table-IsChannels}
use osns.Channels.Add.{with_channel}
use osns.Channels.Start.{
  add_ssh_channel-failed, add_ssh_channel-IsChannels, remove_ssh_channel-IsChannels,
}
use osns.Channels.Remove.{row_of, without}
use osns.Channels.Lookup.{Outcome, lookup_ssh_channel_for_cb-Outcome, lookup-add_ssh_channel}
use osns.Channels.Walk.{all_channels, visit, walk_ssh_channels-visit}
use osns.Channels.Clear.{with_heap, clear_ssh_channels_table-freed}

-- The static variables of a program that starts, and channels without flags.
abbrev static : Channels
static = record {
  heap = record {
    h = λ _. none;
    n = λ _. none;
    p = λ _. none;
    ops = λ _. standalone_element_ops;
    headers = λ _. record { flags = 0; count = 0; ops = empty_header_ops };
  };
  lcnr = λ _. 0;
  flags = λ _. 0;
  channelctr = 0;
  tablecount = 0;
  tablesignal = none;
}

abbrev empty : Channels
empty = new_table none 9 static

empty-IsChannels : IsChannels empty (λ _. [])
unfolding has_table
empty-IsChannels =
    (init_ssh_channels_table-IsChannels none 9 static refl refl (λ _ _. refl) (λ _. refl)).1

-- The callback gives the channel, and counts.
abbrev report : ℕ → ℕ → Option ℕ × ℕ
report i s = (some i, s + 1)

-- The callback of the channel sets SSH_CHANNEL_FLAG_OPEN, or SSH_CHANNEL_FLAG_OPENFAILURE.
abbrev opens : ℕ → ℕ → Bool × ℕ
opens i f = (true, f + 4)

abbrev refuses : ℕ → ℕ → Bool × ℕ
refuses i f = (false, f + 8)

lookup-add_ssh_channel_example :
    (t' : Channels) × (add_ssh_channel opens 5 empty ≡ some (true, t'))
    × IsChannels t' (with_channel (λ _. []) 0 5)
    × (lookup_ssh_channel_for_cb none report 0 7 t' ≡ done (some 5, 8))
unfolding has_table osns.Channels.set_table
lookup-add_ssh_channel_example =
    lookup-add_ssh_channel none report 7 opens empty (λ _. []) 5 6 empty-IsChannels refl
      (omega arith) refl refl

add_ssh_channel-failed_example :
    (t' : Channels) × (add_ssh_channel refuses 5 empty ≡ some (false, t'))
    × IsChannels t' (λ _. [])
    × (has_table (t'.flags 5) ≡ false)
    × (t'.channelctr ≡ 1)
unfolding has_table osns.Channels.set_table
add_ssh_channel-failed_example =
    add_ssh_channel-failed refuses empty (λ _. []) 5 10 empty-IsChannels refl (omega arith) refl
      refl

unfoldable table_of : Option (Bool × Channels) → Channels
table_of none = empty
table_of (some (_, t)) = t

-- The table with the channel 5.
abbrev one : Channels
one = table_of (add_ssh_channel opens 5 empty)

abbrev rows : ℕ → List Addr
rows = with_channel (λ _. []) 0 5

one-IsChannels : IsChannels one rows
unfolding table_of has_table osns.Channels.set_table
one-IsChannels =
    let (t', run, ok, _) =
      add_ssh_channel-IsChannels opens empty (λ _. []) 5 6 empty-IsChannels refl (omega arith) refl
        refl in
    subst (λ t. IsChannels t rows) (sym (ap table_of run)) ok

rows-small : (j : ℕ) → length (rows j) < 2 ^ 64
rows-small j = elim (Bool-cases (0 % channels_table_size == j)) [
  | inl t ↦ rw t (omega arith)
  | inr f ↦ rw f (omega arith)
]

one-has : has_table (one.flags 5) ≡ true
unfolding table_of osns.Channels.Members.contains osns.SimpleList.same_addr has_table
    osns.Channels.set_table
one-has =
    let (t', run, ok, at_0) =
      add_ssh_channel-IsChannels opens empty (λ _. []) 5 6 empty-IsChannels refl (omega arith) refl
        refl in
    let here : contains (element 5) (rows (t'.lcnr 5 % channels_table_size)) ≡ true =
      rw at_0 refl in
    ap (λ o. has_table ((table_of o).flags 5)) run ∙ sym (ok.member 5) ∙ here

lookup_ssh_channel_for_cb-Outcome_example :
    Outcome none report 64 7 one
      (λ j. has_table (one.flags j))
      (lookup_ssh_channel_for_cb none report 64 7 one)
lookup_ssh_channel_for_cb-Outcome_example =
    lookup_ssh_channel_for_cb-Outcome none report 64 7 one rows one-IsChannels

abbrev close : ℕ → ℕ → ℕ → ℕ
close i f flags = flags + 2 ^ 7

close-has : (f : ℕ) → has_table f ≡ true → has_table (close 5 0 f) ≡ true
unfolding has_table
close-has f on = ground arith

remove_ssh_channel-IsChannels_example :
    (at : Split (element 5) (rows (row_of one 5))) × (t' : Channels) × (remove_ssh_channel close 5
        (2 ^ 7)
        one
      ≡ some t')
    × IsChannels t' (without one rows 5 at)
    × (has_table (t'.flags 5) ≡ false)
unfolding table_of
remove_ssh_channel-IsChannels_example =
    remove_ssh_channel-IsChannels close one rows 5 (2 ^ 7) one-IsChannels one-has
      (close-has (one.flags 5) one-has) (rows-small _)

-- Counts up to 3.
abbrev count : ℕ → ℕ → Bool × ℕ
count i s = (s == 3, s + 1)

walk_ssh_channels-visit_example :
    walk_ssh_channels count 0 one ≡ done (visit count (all_channels channels_table_size 0 rows) 0)
walk_ssh_channels-visit_example = walk_ssh_channels-visit count one rows 0 one-IsChannels

clear_ssh_channels_table-freed_example :
    (heap' : _) × (clear_ssh_channels_table one
      ≡ done (all_channels channels_table_size 0 rows, with_heap one heap'))
    × (b' : ℕ → List Addr) × IsTable number (as_group (with_heap one heap')) 0 b'
    × ((j : ℕ) → j < channels_table_size → b' j ≡ [])
clear_ssh_channels_table-freed_example =
    clear_ssh_channels_table-freed one rows one-IsChannels (λ j _. rows-small j)

-- Headers that are set up.
unfoldable next_in : Addr → Option Addr
next_in (head k) = some (tail k)
next_in (tail k) = none
next_in (element i) = none

unfoldable prev_in : Addr → Option Addr
prev_in (head k) = none
prev_in (tail k) = some (head k)
prev_in (element i) = none

unfoldable ops_in : Addr → ElementOps
ops_in (head k) = system_head_element_ops
ops_in (tail k) = system_tail_element_ops
ops_in (element i) = standalone_element_ops

abbrev ready : Channels
ready = record static {
  heap = record {
    h = λ _. none;
    n = next_in;
    p = prev_in;
    ops = ops_in;
    headers = λ _. record { flags = 2; count = 0; ops = empty_header_ops };
  };
}

-- Two channels: a message for the second one comes to its callback.
abbrev two : Channels
two = table_of (add_ssh_channel opens 3 (table_of (add_ssh_channel opens 5 ready)))

abbrev note : ℕ → ℕ → List ℕ → List ℕ
note i nr s = i ∷ nr ∷ s

iocb_two : lookup_ssh_channel_for_iocb note 1 4 [] two ≡ done (true, 3 ∷ 4 ∷ [])
unfolding table_of lookup_ssh_channel_for_iocb add_ssh_channel next_in prev_in ops_in
    osns.SimpleList.Users.add_list_element_first osns.SimpleList.init_list_element
    osns.SimpleList.insert_common_empty_header osns.SimpleList.same_addr
    osns.SimpleList.Users.get_list_head
iocb_two = refl
