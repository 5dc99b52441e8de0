-- ===== src/Channels.antt =====
-- The table of SSH channels: src/ssh/channel/table.c, on the lists of SimpleList. A channel is the number of
-- the element that it holds. The headers of the store with the numbers below 64 are `tablehash`. The
-- callbacks `start` and `close` of a channel get the flags of the channel and give them back; the callbacks
-- of a lookup and of a walk change a state of their own, which has what they change of the channels, and
-- leave the table. The locks of the rows and of the signal are left out.
mod Tests
pub mod Members
pub mod Total
pub mod Invariant
pub mod Init
pub mod Add
pub mod Remove
pub mod Start
pub mod Lookup
pub mod Walk
pub mod Clear
use osns.Prelude.{
  ℕ, zero, suc, ◌+◌, ◌-◌, ◌*◌, ◌/◌, ◌%◌, ◌^◌, Bool, true, false, Option, none, some, ◌>>=◌, ◌==◌,
  ltb, List, [], ◌∷◌, ◌++◌, if◌then◌else◌, ◌||◌,
}
use osns.SshString.{Run, fault, out_of_fuel, done}
use osns.SimpleList.{Addr, head, tail, element, Heap}
use osns.SimpleList.Steps.{get_next_element}
use osns.SimpleList.Users.{
  get_list_head, remove_list_element, remove_list_head, add_list_element_first,
}
use osns.SimpleHash.{init_headers}

abbrev pub channels_table_size : ℕ
channels_table_size = 64

-- The static variables, and the fields `list`, `lcnr` and `flags` of the channels.
pub record Channels : Type 0 where
  pub heap : Heap
  pub lcnr : ℕ → ℕ
  pub flags : ℕ → ℕ
  pub channelctr : ℕ
  pub tablecount : ℕ
  pub tablesignal : Option ℕ

-- The channel in which a list field stands. A header is in none.
unfoldable pub channel_of : Addr → Option ℕ
channel_of (head k) = none
channel_of (tail k) = none
channel_of (element i) = some i

-- The flag SSH_CHANNEL_FLAG_TABLE, which is the second bit.
unfoldable pub has_table : ℕ → Bool
has_table f = f / 2 % 2 == 1

unfoldable pub set_table : ℕ → ℕ
set_table f = if f / 2 % 2 == 1 then f else f + 2

unfoldable pub clear_table : ℕ → ℕ
clear_table f = if f / 2 % 2 == 1 then f - 2 else f

unfoldable pub write_flags : ℕ → ℕ → Channels → Channels
write_flags i f t = record t { flags = λ j. if i == j then f else t.flags j }

unfoldable pub write_lcnr : ℕ → ℕ → Channels → Channels
write_lcnr i n t = record t { lcnr = λ j. if i == j then n else t.lcnr j }

-- What a lookup does with the channel of an element: the result of `cb`, or the next rounds.
unfoldable pub try_channel :
    {R S : Type 0} → (ℕ → S → R × S) → ℕ → S → Channels → Option ℕ → Run (R × S) → Run (R × S)
try_channel cb n s t none rest = fault
try_channel cb n s t (some i) rest = if t.lcnr i == n then done (cb i s) else rest

unfoldable pub lookup_loop :
    {R S : Type 0} → ℕ → R → (ℕ → S → R × S) → ℕ → S → Option Addr → Channels → Run (R × S)
unfolding try_channel channel_of
lookup_loop zero failed cb n s list t = out_of_fuel
lookup_loop (suc fuel) failed cb n s none t = done (failed, s)
lookup_loop (suc fuel) failed cb n s (some a) t =
    try_channel cb n s t (channel_of a) (elim (get_next_element a t.heap) [
      | none ↦ fault
      | some next ↦ lookup_loop fuel failed cb n s next t
    ])

-- `failed` is -1. A round passes a channel.
unfoldable pub lookup_ssh_channel_for_cb :
    {R S : Type 0} → R → (ℕ → S → R × S) → ℕ → S → Channels → Run (R × S)
unfolding lookup_loop
lookup_ssh_channel_for_cb failed cb n s t =
    let k = n % channels_table_size in
    lookup_loop ((t.heap.headers k).count + 1) failed cb n s (get_list_head k t.heap) t

-- The results 0 and -1 are `true` and `false`.
unfoldable pub doiocb : {S : Type 0} → (ℕ → ℕ → S → S) → ℕ → ℕ → S → Bool × S
doiocb iocb iocbnr i s = (true, iocb i iocbnr s)

unfoldable pub lookup_ssh_channel_for_iocb :
    {S : Type 0} → (ℕ → ℕ → S → S) → ℕ → ℕ → S → Channels → Run (Bool × S)
unfolding lookup_ssh_channel_for_cb doiocb
lookup_ssh_channel_for_iocb iocb n iocbnr s t =
    lookup_ssh_channel_for_cb false (doiocb iocb iocbnr) n s t

-- `get_default_shared_signal` gives `default`.
unfoldable pub init_ssh_channels_table : Option ℕ → ℕ → Channels → Option Channels
init_ssh_channels_table signal default t = elim (t.tablesignal) [
  | some _ ↦ some t
  | none ↦ do
    heap ← init_headers channels_table_size 0 t.heap
    some (record t {
      heap = heap;
      tablesignal = some (elim signal [ none ↦ default | some given ↦ given ]);
    })
]

unfoldable pub channel_at : Option Addr → Option (Option ℕ)
unfolding channel_of
channel_at none = some none
channel_at (some a) = do i ← channel_of a; some (some i)

unfoldable pub next_channel : Option ℕ → ℕ → Channels → Option (Option ℕ)
unfolding channel_at
next_channel none hashvalue t = channel_at (get_list_head hashvalue t.heap)
next_channel (some i) hashvalue t = do list ← get_next_element (element i) t.heap; channel_at list

unfoldable pub get_next_ssh_channel : Option ℕ → ℕ → Channels → Option (Option ℕ)
unfolding next_channel
get_next_ssh_channel channel hashvalue t =
    if ltb hashvalue channels_table_size then next_channel channel hashvalue t else some none

-- The counters are of 32 bits.
unfoldable pub put_in_table : ℕ → Heap → Channels → Channels
unfolding set_table write_flags write_lcnr
put_in_table i heap t =
    let t' : Channels = record (write_lcnr i t.channelctr t) {
      heap = heap;
      channelctr = (t.channelctr + 1) % 2 ^ 32;
      tablecount = (t.tablecount + 1) % 2 ^ 32;
    } in
    write_flags i (set_table (t.flags i)) t'

unfoldable pub table_add_ssh_channel : ℕ → Channels → Option Channels
unfolding has_table put_in_table
table_add_ssh_channel i t =
    let put : Option Channels = (do
      heap ← add_list_element_first (t.channelctr % channels_table_size) (element i) t.heap
      some (put_in_table i heap t)) in
    if has_table (t.flags i) then some t else put

unfoldable pub take_from_table : ℕ → Heap → Channels → Channels
unfolding clear_table write_flags
take_from_table i heap t =
    write_flags i (clear_table (t.flags i))
      (record t { heap = heap; tablecount = (t.tablecount + (2 ^ 32 - 1)) % 2 ^ 32 })

unfoldable pub table_remove_ssh_channel : ℕ → Channels → Option Channels
unfolding has_table take_from_table
table_remove_ssh_channel i t =
    let taken : Option Channels = (do
      heap ← remove_list_element (some (element i)) t.heap
      some (take_from_table i heap t)) in
    if has_table (t.flags i) then taken else some t

-- The channel is started: `false` is the result -1 of its callback.
unfoldable pub started : ℕ → Bool × ℕ → Channels → Option (Bool × Channels)
unfolding write_flags table_remove_ssh_channel
started i (true, f) t = some (true, write_flags i f t)
started i (false, f) t = do t' ← table_remove_ssh_channel i (write_flags i f t); some (false, t')

-- `true` is the result 0.
unfoldable pub add_ssh_channel : (ℕ → ℕ → Bool × ℕ) → ℕ → Channels → Option (Bool × Channels)
unfolding table_add_ssh_channel started
add_ssh_channel start i t = do t' ← table_add_ssh_channel i t; started i (start i (t'.flags i)) t'

-- Whether one of the flags SSH_CHANNEL_FLAG_CLIENT_CLOSE and SSH_CHANNEL_FLAG_SERVER_CLOSE is given.
unfoldable pub closes : ℕ → Bool
closes f = (f / 2 ^ 7 % 2 == 1) || (f / 2 ^ 5 % 2 == 1)

unfoldable pub remove_ssh_channel : (ℕ → ℕ → ℕ → ℕ) → ℕ → ℕ → Channels → Option Channels
unfolding closes write_flags table_remove_ssh_channel
remove_ssh_channel close i f t =
    table_remove_ssh_channel i (if closes f then write_flags i (close i f (t.flags i)) t else t)

-- The loop over the channels of a row, from `channel` on: the channel at which `cb` gives not 0, if any. The
-- next channel is taken before the call, which makes no difference where `cb` leaves the table.
unfoldable pub walk_row :
    {S : Type 0} → ℕ → (ℕ → S → Bool × S) → ℕ → Option ℕ → S → Channels → Run (Option ℕ × S)
walk_row zero cb k channel s t = out_of_fuel
walk_row (suc fuel) cb k none s t = done (none, s)
walk_row (suc fuel) cb k (some i) s t =
    let after = cb i s in
    elim (get_next_ssh_channel (some i) k t) [
      | none ↦ fault
      | some next ↦
          let rest = walk_row fuel cb k next (after.1) t in
          if after.0 then done (some i, after.1) else rest
    ]

-- `n` rows, from the one with the number `k` on. A round passes a channel.
unfoldable pub walk_rows :
    {S : Type 0} → ℕ → (ℕ → S → Bool × S) → ℕ → S → Channels → Run (Option ℕ × S)
unfolding walk_row
walk_rows zero cb k s t = done (none, s)
walk_rows (suc n) cb k s t = elim (get_next_ssh_channel none k t) [
  | none ↦ fault
  | some channel ↦ elim (walk_row ((t.heap.headers k).count + 1) cb k channel s t) [
    | fault ↦ fault
    | out_of_fuel ↦ out_of_fuel
    | done (some i, s') ↦ done (some i, s')
    | done (none, s') ↦ walk_rows n cb (k + 1) s' t
  ]
]

unfoldable pub walk_ssh_channels :
    {S : Type 0} → (ℕ → S → Bool × S) → S → Channels → Run (Option ℕ × S)
unfolding walk_rows
walk_ssh_channels cb s t = walk_rows channels_table_size cb 0 s t

-- The inner loop of `clear_ssh_channels_table`: the channels that are handed to `free_ssh_channel`.
unfoldable pub clear_row : ℕ → ℕ → Channels → Run (List ℕ × Channels)
unfolding channel_of
clear_row zero k t = out_of_fuel
clear_row (suc fuel) k t = elim (remove_list_head k t.heap) [
  | none ↦ fault
  | some (none, heap) ↦ done ([], record t { heap = heap })
  | some (some e, heap) ↦
      let rest = clear_row fuel k (record t { heap = heap }) in
      elim (channel_of e) [
        | none ↦ fault
        | some i ↦ elim rest [
          | fault ↦ fault
          | out_of_fuel ↦ out_of_fuel
          | done (freed, t') ↦ done (i ∷ freed, t')
        ]
      ]
]

-- The loop over the rows. A round of the inner one takes a channel.
unfoldable pub clear_rows : ℕ → ℕ → Channels → Run (List ℕ × Channels)
unfolding clear_row
clear_rows zero k t = done ([], t)
clear_rows (suc n) k t = elim (clear_row ((t.heap.headers k).count + 1) k t) [
  | fault ↦ fault
  | out_of_fuel ↦ out_of_fuel
  | done (freed, t') ↦ elim (clear_rows n (k + 1) t') [
    | fault ↦ fault
    | out_of_fuel ↦ out_of_fuel
    | done (more, t'') ↦ done (freed ++ more, t'')
  ]
]

unfoldable pub clear_ssh_channels_table : Channels → Run (List ℕ × Channels)
unfolding clear_rows
clear_ssh_channels_table t = clear_rows channels_table_size 0 t
