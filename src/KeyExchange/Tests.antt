-- ===== src/KeyExchange/Tests.antt =====
-- The choice of an algorithm at concrete lists.
use osns.Prelude.{ℕ, ◌≡◌, refl, arith, ◌++◌, List, [], ◌∷◌, Bool, true}
use osns.Prelude.Int.{ℤ, pos, negsuc}
use osns.SshString.{done}
use osns.SshString.RoundTrip.{string_of, encode}
use osns.CString.Names.{IsName, join}
use osns.KeyExchange.{get_best_guess}
use osns.KeyExchange.Compare.{Algo, Outcome, compare_msg_kexinit}
use osns.KeyExchange.Offers.{Offer, client_lists, server_lists, name_list, negotiate, settle}
use osns.KeyExchange.Negotiate.{compare_msg_kexinit-offers}
use osns.KeyExchange.Guess.{choose}

abbrev aes : List ℕ
aes = b'a' ∷ b'e' ∷ b's' ∷ []

abbrev cbc : List ℕ
cbc = b'c' ∷ b'b' ∷ b'c' ∷ []

abbrev none_algo : List ℕ
none_algo = b'n' ∷ b'o' ∷ []

aes-IsName : IsName aes
aes-IsName = ground arith

abbrev offers : List Offer
offers =
    (cbc ∷ aes ∷ [], none_algo ∷ aes ∷ [])
    ∷ (aes ∷ [], aes ∷ [])
    ∷ (aes ∷ [], aes ∷ [])
    ∷ (aes ∷ [], aes ∷ [])
    ∷ (aes ∷ [], aes ∷ [])
    ∷ (aes ∷ [], aes ∷ [])
    ∷ (aes ∷ [], aes ∷ [])
    ∷ (aes ∷ [], aes ∷ [])
    ∷ ([], [])
    ∷ ([], [])
    ∷ []

abbrev head : List ℕ
head = 20 ∷ 1 ∷ 2 ∷ 3 ∷ 4 ∷ 5 ∷ 6 ∷ 7 ∷ 8 ∷ 9 ∷ 10 ∷ 11 ∷ 12 ∷ 13 ∷ 14 ∷ 15 ∷ 16 ∷ []

abbrev algo : ℕ → List ℕ → Algo
algo type sshname = record { type = type; sshname = sshname }

abbrev algos : List Algo
algos =
    algo 0 cbc
    ∷ algo 0 aes
    ∷ algo 1 aes
    ∷ algo 2 aes
    ∷ algo 3 aes
    ∷ algo 4 aes
    ∷ algo 5 aes
    ∷ algo 6 aes
    ∷ algo 7 aes
    ∷ []

abbrev agreed : Bool × List ℤ
agreed =
    (true, pos 1 ∷ pos 2 ∷ pos 3 ∷ pos 4 ∷ pos 5 ∷ pos 6 ∷ pos 7 ∷ pos 8 ∷ negsuc 0 ∷ negsuc 0 ∷ [])

compare_msg_kexinit-offers_example :
    (r : Outcome) × (compare_msg_kexinit algos true
        (string_of (head ++ (client_lists offers ++ (0 ∷ []))))
        (string_of (head ++ (server_lists offers ++ (0 ∷ []))))
      ≡ done r)
    × ((r.result, r.chosen) ≡ agreed)
unfolding client_lists server_lists negotiate name_list join choose osns.CString.Names.listed
    osns.Memory.same_bytes osns.KeyExchange.copy_name osns.KeyExchange.Offers.place_of
    osns.KeyExchange.Offers.has_entry osns.KeyExchange.Offers.others_before
    osns.KeyExchange.Offers.is_entry settle encode osns.Wire.four
compare_msg_kexinit-offers_example =
    compare_msg_kexinit-offers algos true offers
      (string_of (head ++ (client_lists offers ++ (0 ∷ []))))
      (string_of (head ++ (server_lists offers ++ (0 ∷ [])))) head head (0 ∷ []) (0 ∷ []) refl
      (ground arith) refl refl refl refl refl refl (omega arith) (omega arith) (omega arith)
      (omega arith)

abbrev zeroed : List ℕ
zeroed = aes ++ (0 ∷ b',' ∷ aes)
