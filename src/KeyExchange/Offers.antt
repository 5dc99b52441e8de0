-- ===== src/KeyExchange/Offers.antt =====
-- The name-lists of two KEXINIT messages, and what has to be found in them.
use osns.Prelude.{
  ℕ, suc, ◌+◌, ◌<◌, ◌≡◌, refl, sym, arith, ap, Bool, true, false, Bool-cases, inl, inr, Option,
  none, some,
}
use osns.Prelude.{List, [], ◌∷◌, ◌++◌, All, length, length-append, ◌==◌, ◌&&◌, ◌||◌, if◌then◌else◌}
use osns.Prelude.Int.{ℤ, pos, negsuc}
use osns.Memory.{same_bytes}
use osns.CString.Names.{IsName, join}
use osns.SshString.{SshString, done}
use osns.SshString.RoundTrip.{Holds, encode}
use osns.KeyExchange.{get_best_guess, is_null}
use osns.KeyExchange.Guess.{choose, get_best_guess-names}
use osns.KeyExchange.Compare.{Algo, get_index_algo, choose_index}

-- A list of names, none of them empty, as bytes.
unfoldable pub name_list : List (List ℕ) → List ℕ
name_list [] = []
name_list (s ∷ ss) = join s ss

abbrev pub IsListName : List ℕ → Type 0
IsListName s = IsName s × (0 < length s)

-- The two lists for one type of algorithm.
abbrev pub Offer : Type 0
Offer = List (List ℕ) × List (List ℕ)

abbrev pub IsOffer : Offer → Type 0
IsOffer o = All IsListName (o.0) × All IsListName (o.1)

unfoldable pub client_lists : List Offer → List ℕ
client_lists [] = []
client_lists (o ∷ os) = encode (name_list (o.0)) ++ client_lists os

unfoldable pub server_lists : List Offer → List ℕ
server_lists [] = []
server_lists (o ∷ os) = encode (name_list (o.1)) ++ server_lists os

-- What has to be found: the result, and the entries of `chosen` that are set.
unfoldable pub settle : Option ℤ → Bool × List ℤ → Bool × List ℤ
settle none rest = (false, negsuc 0 ∷ [])
settle (some k) rest = (rest.0, k ∷ rest.1)

-- The entry is that of the name for the type.
unfoldable pub is_entry : ℕ → List ℕ → Algo → Bool
is_entry type name a = (a.type == type) && same_bytes a.sshname name

unfoldable pub has_entry : ℕ → List ℕ → List Algo → Bool
has_entry type name [] = false
has_entry type name (a ∷ algos) = is_entry type name a || has_entry type name algos

-- The number of entries in front of the first one that is.
unfoldable pub others_before : ℕ → List ℕ → List Algo → ℕ
others_before type name [] = 0
others_before type name (a ∷ algos) =
    if is_entry type name a then 0 else 1 + others_before type name algos

-- What a choice has to be: the place of the name in the table. Without a name it is -1, for the languages,
-- which are the types 8 and 9, and for no other type.
unfoldable pub place_of : List Algo → ℕ → List ℕ → Option ℤ
place_of algos i name =
    if length name == 0
    then (if (i == 8) || (i == 9) then some (negsuc 0) else none)
    else (if has_entry i name algos then some (pos (others_before i name algos)) else none)

unfoldable pub negotiate : List Algo → ℕ → List Offer → Bool × List ℤ
negotiate algos i [] = (true, [])
negotiate algos i (o ∷ os) =
    settle (place_of algos i (choose (o.0) (o.1) 65)) (negotiate algos (suc i) os)

get_index_algo-others_before :
    (algos : List Algo) (name : List ℕ) (type : ℕ)
    → get_index_algo algos name type
      ≡ (if has_entry type name algos then some (others_before type name algos) else none)
unfolding get_index_algo has_entry others_before is_entry
get_index_algo-others_before [] name type = refl
get_index_algo-others_before (a ∷ algos) name type =
    let rest = get_index_algo-others_before algos name type in
    elim (Bool-cases ((a.type == type) && same_bytes a.sshname name)) [
      | inl t ↦ rw t refl
      | inr f ↦ elim (Bool-cases (has_entry type name algos)) [
        | inl t' ↦ rw (f, rest, t') (ap (λ (n : ℕ). some n) (omega arith))
        | inr f' ↦ rw (f, rest, f') refl
      ]
    ]

-- What the code chooses for a name is that.
pub choose_index-place_of :
    (algos : List Algo) (i : ℕ) (name : List ℕ) → choose_index algos i name ≡ place_of algos i name
unfolding choose_index place_of
choose_index-place_of algos i [] = refl
choose_index-place_of algos i (b ∷ name) =
    let named : (length (b ∷ name) == 0) ≡ false = ground arith in
    elim (Bool-cases (has_entry i (b ∷ name) algos)) [
      | inl t ↦ rw (get_index_algo-others_before algos (b ∷ name) i, t, named) refl
      | inr f ↦ rw (get_index_algo-others_before algos (b ∷ name) i, f, named) refl
    ]

choose_empty : (cs : List (List ℕ)) (size : ℕ) → choose cs [] size ≡ []
unfolding choose osns.CString.Names.listed
choose_empty [] size = refl
choose_empty (c ∷ cs) size = choose_empty cs size

length-join : (s : List ℕ) (ss : List (List ℕ)) → 0 < length s → 0 < length (join s ss)
unfolding join
length-join s [] h = h
length-join s (t ∷ ss) h = omega (arith, length-append s (b',' ∷ join t ss))

weaken : (ss : List (List ℕ)) → All IsListName ss → All IsName ss
weaken [] h = tt
weaken (s ∷ ss) (h, hs) = (h.0, weaken ss hs)

pub guess-offer :
    (c s : SshString) (cs ss : List (List ℕ))
    → is_null c.ptr ≡ false
    → Holds c (name_list cs)
    → Holds s (name_list ss)
    → All IsListName cs
    → All IsListName ss
    → get_best_guess c s 65 ≡ done (choose cs ss 65)
unfolding name_list get_best_guess choose osns.CString.Names.listed
guess-offer c s [] ss at hc hs names_c names_s = rw (hc.len_eq)
guess-offer c s (n ∷ cs) [] at hc hs names_c names_s =
    let not_c : (c.len == 0) ≡ false =
      rw (hc.len_eq) (ground (arith, length-join n cs (names_c.0.1))) in
    rw (not_c, at, hs.len_eq) (ap done (sym (choose_empty cs 65)))
guess-offer c s (n ∷ cs) (m ∷ ss) at hc hs names_c names_s =
    get_best_guess-names c s n m cs ss 65 at hc hs (length-join n cs (names_c.0.1))
      (length-join m ss (names_s.0.1)) (weaken (n ∷ cs) names_c) (weaken (m ∷ ss) names_s)
