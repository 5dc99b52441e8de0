-- ===== src/KeyExchange/Compare.antt =====
-- `get_index_algo` and `compare_msg_kexinit`.
use osns.Prelude.{
  ℕ, zero, suc, ◌+◌, ◌-◌, ◌^◌, Bool, true, false, Option, none, some, List, [], ◌∷◌, ◌++◌, ◌>>=◌,
}
use osns.Prelude.{◌==◌, ◌&&◌, ◌||◌, if◌then◌else◌, leb, drop}
use osns.Prelude.Int.{ℤ, pos, negsuc}
use osns.Memory.{same_bytes}
use osns.SshString.{SshString, ssh_string_init, read_ssh_string, u32, Run, fault, out_of_fuel, done}
use osns.KeyExchange.{get_best_guess}

-- An entry of the table that the KEXINIT message was built from. The entry with a negative type that
-- closes the table is the end of a list of entries.
pub record Algo : Type 0 where
  pub type : ℕ
  pub sshname : List ℕ

unfoldable pub get_index_algo : List Algo → List ℕ → ℕ → Option ℕ
get_index_algo [] name type = none
get_index_algo (a ∷ algos) name type =
    let rest = get_index_algo algos name type in
    if (a.type == type) && same_bytes a.sshname name then some 0 else (do k ← rest; some (suc k))

abbrev pub algo_type_hostkey : ℕ
algo_type_hostkey = 1

abbrev pub algo_type_lang_c2s : ℕ
algo_type_lang_c2s = 8

abbrev pub algo_type_lang_s2c : ℕ
algo_type_lang_s2c = 9

abbrev pub algo_types_count : ℕ
algo_types_count = 10

-- The result, the entries of `chosen` that were written, in their order, and the arguments of the calls
-- of `store_algo_pubkey_negotiation`.
pub record Outcome : Type 0 where
  pub result : Bool
  pub chosen : List ℤ
  pub stored : List (SshString × SshString)

-- The entry of `chosen` for a name; `none` is the jump to `error`.
unfoldable pub choose_index : List Algo → ℕ → List ℕ → Option ℤ
choose_index algos i [] =
    if (i == algo_type_lang_c2s) || (i == algo_type_lang_s2c) then some (negsuc 0) else none
choose_index algos i (b ∷ name) = do k ← get_index_algo algos (b ∷ name) i; some (pos k)

unfoldable pub bind_run : {A B : Type 0} → Run A → (A → Run B) → Run B
bind_run fault f = fault
bind_run out_of_fuel f = out_of_fuel
bind_run (done a) f = f a

unfoldable pub run_of : {A : Type 0} → Option A → Run A
run_of none = fault
run_of (some a) = done a

unfoldable pub failed : List ℤ → Outcome
failed chosen = record { result = false; chosen = chosen; stored = [] }

-- `chosen[i]` is set, and the loop goes on, unless the jump to `error` ends it.
unfoldable pub add_choice : Option ℤ → List (SshString × SshString) → Run Outcome → Run Outcome
unfolding bind_run failed
add_choice none stored rest = done (failed (negsuc 0 ∷ []))
add_choice (some k) stored rest =
    bind_run rest
      (λ o. done (record { result = o.result; chosen = k ∷ o.chosen; stored = stored ++ o.stored }))

-- The loop from `i` on, for `n` more types. `main` is the flag of the connection.
unfoldable pub compare_loop : List Algo → Bool → ℕ → ℕ → List ℕ → ℕ → List ℕ → ℕ → Run Outcome
unfolding bind_run run_of add_choice failed
compare_loop algos main zero i pos_client left_client pos_server left_server =
    done (record { result = true; chosen = []; stored = [] })
compare_loop algos main (suc n) i pos_client left_client pos_server left_server =
    bind_run (run_of (read_ssh_string pos_client left_client ssh_string_init)) (λ c.
      if c.0 == 0
      then done (failed [])
      else bind_run (run_of (read_ssh_string pos_server left_server ssh_string_init)) (λ s.
        if s.0 == 0
        then done (failed [])
        else bind_run (get_best_guess c.1 s.1 65) (λ name.
          let stored : List (SshString × SshString) =
            if main && (i == algo_type_hostkey) then (c.1, s.1) ∷ [] else [] in
          let rest =
            compare_loop algos main n (suc i) (drop c.0 pos_client)
              (u32 (left_client + 2 ^ 32 - c.0)) (drop s.0 pos_server)
              (u32 (left_server + 2 ^ 32 - s.0)) in
          add_choice (choose_index algos i name) stored rest)))

unfoldable pub compare_messages :
    List Algo → Bool → Option (List ℕ) → ℕ → Option (List ℕ) → ℕ → Run Outcome
unfolding failed
compare_messages algos main none len_client server len_server = done (failed [])
compare_messages algos main (some client) len_client none len_server = done (failed [])
compare_messages algos main (some client) len_client (some server) len_server =
    if leb len_client 63 || leb len_server 63
    then done (failed [])
    else compare_loop algos main algo_types_count 0 (drop 17 client) (len_client - 17)
        (drop 17 server) (len_server - 17)

unfoldable pub compare_msg_kexinit : List Algo → Bool → SshString → SshString → Run Outcome
unfolding compare_messages
compare_msg_kexinit algos main client server =
    compare_messages algos main client.ptr client.len server.ptr server.len
