-- ===== src/Channels/Init.antt =====
-- The table of channels before any channel is added.
use osns.Prelude.{ℕ, zero, suc, ◌<◌, ◌≡◌, refl, sym, arith, false, Option, none, some, []}
use osns.SimpleHash.Create.{IsUnmarked, init_headers-fresh, new_group-IsTable, fresh_headers}
use osns.Channels.{Channels, channels_table_size, has_table, init_ssh_channels_table}
use osns.Channels.Members.{contains}
use osns.Channels.Total.{total}
use osns.Channels.Invariant.{as_group, number, IsChannels}

-- The table with new rows.
abbrev pub new_table : Option ℕ → ℕ → Channels → Channels
new_table signal default t = record t {
  heap = fresh_headers channels_table_size 0 t.heap;
  tablesignal = some (elim signal [ none ↦ default | some given ↦ given ]);
}

total-empty : (n : ℕ) → total n (λ _. []) ≡ 0
unfolding total
total-empty zero = refl
total-empty (suc n) = omega (arith, total-empty n)

-- The static table of a program that starts: no row is marked as initialised, no channel has the flag, and
-- the count is 0. It gets a signal, and becomes a table in order with empty rows.
pub init_ssh_channels_table-IsChannels :
    (signal : Option ℕ) (default : ℕ) (t : Channels)
    → t.tablesignal ≡ none
    → t.tablecount ≡ 0
    → ((k : ℕ) → k < channels_table_size → IsUnmarked t.heap k)
    → ((i : ℕ) → has_table (t.flags i) ≡ false)
    → (init_ssh_channels_table signal default t ≡ some (new_table signal default t))
      × IsChannels (new_table signal default t) (λ _. [])
unfolding init_ssh_channels_table contains
init_ssh_channels_table-IsChannels signal default t no_signal no_count unmarked off =
    let run =
      init_headers-fresh channels_table_size 0 (t.heap)
        (λ k _ lt. unmarked k (omega (arith, lt))) in
    (
      rw (no_signal, run) refl,
      record {
        table = new_group-IsTable number channels_table_size 0 (as_group t) (omega arith);
        member = λ i. sym (off i);
        count_eq = rw (no_count, total-empty channels_table_size) refl;
      },
    )
