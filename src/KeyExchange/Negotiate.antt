-- ===== src/KeyExchange/Negotiate.antt =====
-- `compare_msg_kexinit` on two messages with name-lists.
use osns.Prelude.{
  ℕ, suc, ◌+◌, ◌-◌, ◌^◌, ◌<◌, ◌≡◌, refl, arith, ap, ◌∙◌, Bool, true, false, Option, none, some,
}
use osns.Prelude.{
  List, [], ◌∷◌, ◌++◌, All, length, drop, append_assoc, length-append, drop-append, ◌==◌, ◌&&◌,
  ◌||◌, if◌then◌else◌, leb,
}
use osns.Prelude.Int.{ℤ}
use osns.SshString.{SshString, ssh_string_init, u32, done}
use osns.SshString.RoundTrip.{encode, length-encode, read-encode}
use osns.KeyExchange.{is_null}
use osns.KeyExchange.Guess.{choose}
use osns.KeyExchange.Compare.{
  Algo, Outcome, choose_index, bind_run, run_of, failed, add_choice, compare_loop,
  algo_type_hostkey, algo_types_count, compare_msg_kexinit, compare_messages,
}
use osns.KeyExchange.Offers.{
  name_list, IsListName, Offer, IsOffer, client_lists, server_lists, settle, negotiate, guess-offer,
  choose_index-place_of,
}

add_choice-settle :
    (k : Option ℤ) (stored : List (SshString × SshString)) (o : Outcome) (q : Bool × List ℤ)
    → (o.result, o.chosen) ≡ q
    → (r : Outcome) × (add_choice k stored (done o) ≡ done r) × ((r.result, r.chosen) ≡ settle k q)
unfolding add_choice bind_run failed settle
add_choice-settle none stored o q h = (_, refl, refl)
add_choice-settle (some k) stored o q h = (_, refl, ap (λ (p : Bool × List ℤ). (p.0, k ∷ p.1)) h)

-- What is left of a message behind its first list.
behind : (xs tail : List ℕ) → drop (length xs + 4) (encode xs ++ tail) ≡ tail
behind xs tail = rw (length-encode xs) at (drop-append (encode xs) tail)

left_behind :
    (xs tail : List ℕ)
    → length (encode xs ++ tail) < 2 ^ 32
    → u32 (length (encode xs ++ tail) + 2 ^ 32 - (length xs + 4)) ≡ length tail
left_behind xs tail small = omega (arith, length-append (encode xs) tail, length-encode xs)

is_some : {A : Type 0} (p : Option A) (a : A) → p ≡ some a → is_null p ≡ false
unfolding is_null
is_some p a h = rw h

round-lists :
    (algos : List Algo) (main : Bool) (n i : ℕ) (cs ss : List (List ℕ)) (client server : List ℕ)
    → All IsListName cs
    → All IsListName ss
    → length (encode (name_list cs) ++ client) < 2 ^ 32
    → length (encode (name_list ss) ++ server) < 2 ^ 32
    → (stored : List (SshString × SshString)) × (compare_loop algos main
          (suc n)
          i
          (encode (name_list cs) ++ client)
          (length (encode (name_list cs) ++ client))
          (encode (name_list ss) ++ server)
          (length (encode (name_list ss) ++ server))
        ≡ add_choice
            (choose_index algos i (choose cs ss 65))
            stored
            (compare_loop algos main n (suc i) client (length client) server (length server)))
unfolding compare_loop bind_run run_of
round-lists algos main n i cs ss client server names_c names_s small_c small_s =
    let xs = name_list cs in
    let ys = name_list ss in
    let len_c = length-append (encode xs) client in
    let len_s = length-append (encode ys) server in
    let wide_c = length-encode xs in
    let wide_s = length-encode ys in
    let (t, read_t, holds_t, at_t) =
      read-encode ssh_string_init xs client (length (encode xs ++ client)) refl (omega arith)
        small_c in
    let (u, read_u, holds_u, _) =
      read-encode ssh_string_init ys server (length (encode ys ++ server)) refl (omega arith)
        small_s in
    let some_c : (length xs + 4 == 0) ≡ false = ground arith in
    let some_s : (length ys + 4 == 0) ≡ false = ground arith in
    (
      if main && (i == algo_type_hostkey) then (t, u) ∷ [] else [],
      rw
          (
            read_t,
            some_c,
            read_u,
            some_s,
            guess-offer t u cs ss (is_some t.ptr _ at_t) holds_t holds_u names_c names_s,
            behind xs client,
            behind ys server,
            left_behind xs client small_c,
            left_behind ys server small_s,
          )
          refl,
    )

compare_loop-end :
    (algos : List Algo) (main : Bool) (i a b : ℕ) (client server : List ℕ)
    → compare_loop algos main 0 i client a server b
      ≡ done (record { result = true; chosen = []; stored = [] })
unfolding compare_loop
compare_loop-end algos main i a b client server = refl

pub compare_loop-offers :
    (algos : List Algo) (main : Bool) (i : ℕ) (os : List Offer) (client server : List ℕ)
    → All IsOffer os
    → length (client_lists os ++ client) < 2 ^ 32
    → length (server_lists os ++ server) < 2 ^ 32
    → (r : Outcome) × (compare_loop algos main
          (length os)
          i
          (client_lists os ++ client)
          (length (client_lists os ++ client))
          (server_lists os ++ server)
          (length (server_lists os ++ server))
        ≡ done r)
      × ((r.result, r.chosen) ≡ negotiate algos i os)
unfolding client_lists server_lists negotiate
compare_loop-offers algos main i [] client server ok small_c small_s =
    (_, compare_loop-end algos main i _ _ client server, refl)
compare_loop-offers algos main i (o ∷ os) client server (ok, oks) small_c small_s =
    let cs = o.0 in
    let ss = o.1 in
    let assoc_c = append_assoc (encode (name_list cs)) (client_lists os) client in
    let assoc_s = append_assoc (encode (name_list ss)) (server_lists os) server in
    let small_c' = rw assoc_c at small_c in
    let small_s' = rw assoc_s at small_s in
    let (stored, round) =
      round-lists algos main (length os) i cs ss (client_lists os ++ client)
        (server_lists os ++ server) (ok.0) (ok.1) small_c' small_s' in
    let less_c = length-append (encode (name_list cs)) (client_lists os ++ client) in
    let less_s = length-append (encode (name_list ss)) (server_lists os ++ server) in
    let (r, run, agree) =
      compare_loop-offers algos main (suc i) os client server oks (omega arith) (omega arith) in
    let (r', e, agree') =
      add_choice-settle (choose_index algos i (choose cs ss 65)) stored r _ agree in
    let at_place = choose_index-place_of algos i (choose cs ss 65) in
    (r', rw (assoc_c, assoc_s) (round ∙ rw run e), rw (← at_place) agree')

-- Two messages of 64 bytes to less than 2 ^ 32 bytes, which have ten lists of names (of one byte or
-- more, without a comma or a zero; a list may have no names) behind the first 17 bytes, and whatever
-- follows: no message is read behind its end, and the result and the entries of `chosen` are those of
-- `negotiate`. It goes through the types in order, takes for each the first name of the client that
-- the server lists too (no name, if that one has 65 bytes or more), and stores its index in the table.
-- It ends with -1 at a name that is not in the table, and where there is no name, except for the two
-- types of languages.
pub compare_msg_kexinit-offers :
    (algos : List Algo) (main : Bool) (os : List Offer) (c s : SshString)
    (head_c head_s client server : List ℕ)
    → length os ≡ algo_types_count
    → All IsOffer os
    → length head_c ≡ 17
    → length head_s ≡ 17
    → c.ptr ≡ some (head_c ++ (client_lists os ++ client))
    → s.ptr ≡ some (head_s ++ (server_lists os ++ server))
    → c.len ≡ length (head_c ++ (client_lists os ++ client))
    → s.len ≡ length (head_s ++ (server_lists os ++ server))
    → 63 < c.len
    → 63 < s.len
    → c.len < 2 ^ 32
    → s.len < 2 ^ 32
    → (r : Outcome) × (compare_msg_kexinit algos main c s ≡ done r)
      × ((r.result, r.chosen) ≡ negotiate algos 0 os)
unfolding compare_msg_kexinit compare_messages
compare_msg_kexinit-offers algos main os c s head_c head_s client server ten ok hc hs at_c at_s
      len_c len_s long_c long_s small_c small_s =
    let parts_c = length-append head_c (client_lists os ++ client) in
    let parts_s = length-append head_s (server_lists os ++ server) in
    let enough : (leb (c.len) 63 || leb (s.len) 63) ≡ false = ground arith in
    let left_c : c.len - 17 ≡ length (client_lists os ++ client) = omega arith in
    let left_s : s.len - 17 ≡ length (server_lists os ++ server) = omega arith in
    let tail_c : drop 17 (head_c ++ (client_lists os ++ client)) ≡ client_lists os ++ client =
      rw hc at (drop-append head_c (client_lists os ++ client)) in
    let tail_s : drop 17 (head_s ++ (server_lists os ++ server)) ≡ server_lists os ++ server =
      rw hs at (drop-append head_s (server_lists os ++ server)) in
    let (r, run, agree) =
      compare_loop-offers algos main 0 os client server ok (omega arith) (omega arith) in
    let start : compare_msg_kexinit algos main c s
        ≡ compare_loop algos main algo_types_count 0 (client_lists os ++ client)
            (length (client_lists os ++ client)) (server_lists os ++ server)
            (length (server_lists os ++ server)) =
      rw (at_c, at_s, enough, left_c, left_s, tail_c, tail_s) refl in
    (r, start ∙ (rw ten at run), agree)
