-- ===== src/KeyExchange/Guess.antt =====
-- `get_best_guess` on two lists of names.
use osns.Prelude.{ℕ, zero, suc, ◌<◌, ◌≡◌, refl, sym, arith, ap, ◌∙◌, Bool, true, false, some}
use osns.Prelude.{
  List, [], ◌∷◌, ◌++◌, All, length, append_assoc, ltb, ◌==◌, ◌||◌, if◌then◌else◌, length-append, ap,
}
use osns.CString.{text, strstr}
use osns.CString.Names.{
  IsName, enclose, join, listed, enclose-join, text-append, text-enclose, strchr-name, strchr-zero,
  contains-enclose,
}
use osns.Memory.{same_bytes}
use osns.SshString.{SshString, Run, fault, done}
use osns.SshString.RoundTrip.{Holds}
use osns.KeyExchange.{
  find_name, get_best_guess, copy_name, next_name, keep, guess_step, guess_lists, guess_copies,
  enclosed_copy, is_null,
}

-- The first of the client's names that is on the server's list, if there is one and it fits.
unfoldable pub choose : List (List ℕ) → List (List ℕ) → ℕ → List ℕ
choose [] ss size = []
choose (c ∷ cs) ss size = if listed c ss then copy_name c size else choose cs ss size

strstr-enclose :
    (n : List ℕ) (ss : List (List ℕ))
    → IsName n
    → All IsName ss
    → strstr (enclose ss ++ (0 ∷ [])) (b',' ∷ (n ++ (b',' ∷ 0 ∷ []))) ≡ some (listed n ss)
unfolding strstr text
strstr-enclose n ss hn h =
    rw (text-enclose ss [] h, text-append n (b',' ∷ 0 ∷ []) (b',' ∷ []) hn refl)
      (ap some (contains-enclose n ss hn h))

next_name-enclose :
    (c : List ℕ) (cs : List (List ℕ))
    → IsName c
    → next_name (enclose (c ∷ cs) ++ (0 ∷ [])) ≡ some (c, enclose cs ++ (0 ∷ []))
unfolding next_name enclose
next_name-enclose c [] hc = rw (append_assoc c (enclose []) (0 ∷ []), strchr-name c (0 ∷ []) hc)
next_name-enclose c (d ∷ cs) hc =
    rw
      (append_assoc c (enclose (d ∷ cs)) (0 ∷ []), strchr-name c ((d ++ enclose cs) ++ (0 ∷ [])) hc)

keep-enclose :
    (c : List ℕ) (cs : List (List ℕ))
    → IsName c
    → (k : ℕ) × (keep (enclose (c ∷ cs) ++ (0 ∷ [])) ≡ some k) × (ltb 0 k ≡ true)
unfolding keep enclose
keep-enclose [] [] hc = (b',', refl, refl)
keep-enclose [] (d ∷ cs) hc = (b',', refl, refl)
keep-enclose (x ∷ c) cs (hx, hc) = (x, refl, ground (arith, hx))

keep_end : keep (enclose [] ++ (0 ∷ [])) ≡ some 0
unfolding keep enclose
keep_end = refl

-- A round with another name behind it.
guess_step-more :
    (c : List ℕ) (size k : ℕ) (found : Bool) (more : List ℕ)
    → ltb 0 k ≡ true
    → guess_step c size (some found) (some k) (done more)
      ≡ done (if found then copy_name c size else more)
unfolding guess_step
guess_step-more c size k true more h = refl
guess_step-more c size k false more h = rw h

guess_step-last :
    (c : List ℕ) (size : ℕ) (found : Bool) (rest : Run (List ℕ))
    → guess_step c size (some found) (some 0) rest ≡ done (if found then copy_name c size else [])
unfolding guess_step
guess_step-last c size true rest = refl
guess_step-last c size false rest = refl

pub find_name-names :
    (fuel : ℕ) (c : List ℕ) (cs ss : List (List ℕ)) (size : ℕ)
    → IsName c
    → All IsName cs
    → All IsName ss
    → length cs < fuel
    → find_name fuel (enclose ss ++ (0 ∷ [])) size c (enclose cs ++ (0 ∷ []))
      ≡ done (choose (c ∷ cs) ss size)
unfolding find_name choose
find_name-names zero c cs ss size hc hcs h enough = absurd (omega arith)
find_name-names (suc fuel) c [] ss size hc hcs h enough =
    rw (strstr-enclose c ss hc h, keep_end) (guess_step-last c size (listed c ss) _)
find_name-names (suc fuel) c (d ∷ cs) ss size hc (hd, hcs) h enough =
    let (k, e, positive) = keep-enclose d cs hd in
    rw
      (
        strstr-enclose c ss hc h,
        e,
        next_name-enclose d cs hd,
        find_name-names fuel d cs ss size hd hcs h (omega arith),
      )
      (guess_step-more c size k (listed c ss) (choose (d ∷ cs) ss size) positive)

enclosed_copy-join :
    (t : SshString) (s : List ℕ) (ss : List (List ℕ))
    → Holds t (join s ss)
    → enclosed_copy t ≡ some (enclose (s ∷ ss) ++ (0 ∷ []))
unfolding enclosed_copy
enclosed_copy-join t s ss holds = rw (holds.bytes_eq) (
    ap some (
      ap (λ l. b',' ∷ l) (sym (append_assoc (join s ss) (b',' ∷ []) (0 ∷ [])))
      ∙ ap (λ l. l ++ (0 ∷ [])) (enclose-join s ss)))

rounds : (ss : List (List ℕ)) → length ss < length (enclose ss)
unfolding enclose
rounds [] = omega arith
rounds (s ∷ ss) = omega (arith, rounds ss, length-append s (enclose ss))

-- The test of the first names agrees with the search.
first_same :
    (b more : Bool) (x y : List ℕ)
    → (if b then done x else done (if b || more then x else y)) ≡ done (if b || more then x else y)
first_same true more x y = refl
first_same false more x y = refl

guess_copies-enclose :
    (c s : List ℕ) (cs ss : List (List ℕ)) (size : ℕ)
    → All IsName (c ∷ cs)
    → All IsName (s ∷ ss)
    → guess_copies (some (enclose (c ∷ cs) ++ (0 ∷ []))) (some (enclose (s ∷ ss) ++ (0 ∷ []))) size
      ≡ done (choose (c ∷ cs) (s ∷ ss) size)
unfolding guess_copies guess_lists choose listed
guess_copies-enclose c s cs ss size (hc, hcs) (hs, hss) =
    let more = length-append (enclose (c ∷ cs)) (0 ∷ []) in
    rw
      (
        next_name-enclose c cs hc,
        next_name-enclose s ss hs,
        find_name-names (length (enclose (c ∷ cs) ++ (0 ∷ []))) c cs (s ∷ ss) size hc hcs (hs, hss)
            (omega (arith, rounds (c ∷ cs))),
      )
      (first_same (same_bytes c s) (listed c ss) _ _)

-- Two lists of names, without a comma or a zero in a name, that are not empty as bytes: the choice is
-- the first name of the client that the server lists too, if there is one, and it is copied if it is
-- shorter than the buffer. Otherwise the name stays empty. The number of rounds is enough.
pub get_best_guess-names :
    (clist_c clist_s : SshString) (c s : List ℕ) (cs ss : List (List ℕ)) (size : ℕ)
    → is_null clist_c.ptr ≡ false
    → Holds clist_c (join c cs)
    → Holds clist_s (join s ss)
    → 0 < length (join c cs)
    → 0 < length (join s ss)
    → All IsName (c ∷ cs)
    → All IsName (s ∷ ss)
    → get_best_guess clist_c clist_s size ≡ done (choose (c ∷ cs) (s ∷ ss) size)
unfolding get_best_guess
get_best_guess-names clist_c clist_s c s cs ss size at hold_c hold_s some_c some_s names_c names_s =
    let not_c : (clist_c.len == 0) ≡ false = rw (hold_c.len_eq) (ground arith) in
    let not_s : (clist_s.len == 0) ≡ false = rw (hold_s.len_eq) (ground arith) in
    rw
      (
        not_c,
        not_s,
        at,
        enclosed_copy-join clist_c c cs hold_c,
        enclosed_copy-join clist_s s ss hold_s,
      )
      (guess_copies-enclose c s cs ss size names_c names_s)

-- A zero in the client's list behind bytes that are no commas, while the server's list is not empty:
-- `strchr` gives NULL, and the source goes on with it as a pointer.
get_best_guess-zero :
    (clist_c clist_s : SshString) (n rest ys : List ℕ) (size : ℕ)
    → is_null clist_c.ptr ≡ false
    → Holds clist_c (n ++ (0 ∷ rest))
    → Holds clist_s ys
    → 0 < length ys
    → IsName n
    → get_best_guess clist_c clist_s size ≡ fault
unfolding get_best_guess enclosed_copy guess_copies guess_lists next_name
get_best_guess-zero clist_c clist_s n rest ys size at hold_c hold_s some_s name =
    let not_c : (clist_c.len == 0) ≡ false =
      rw (hold_c.len_eq) (ground (arith, length-append n (0 ∷ rest))) in
    let not_s : (clist_s.len == 0) ≡ false = rw (hold_s.len_eq) (ground arith) in
    rw
      (
        not_c,
        not_s,
        at,
        hold_c.bytes_eq,
        hold_s.bytes_eq,
        append_assoc n (0 ∷ rest) (b',' ∷ 0 ∷ []),
        strchr-zero n (rest ++ (b',' ∷ 0 ∷ [])) name,
      )
      refl
