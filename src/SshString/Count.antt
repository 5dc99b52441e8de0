-- ===== src/SshString/Count.antt =====
-- `buffer_count_strings` on a buffer of strings, and the input on which it does not end.
use osns.Prelude.{ℕ, zero, suc, ◌+◌, ◌-◌, ◌^◌, ◌≤◌, ◌<◌, ◌≡◌, refl, arith, ap, ◌∙◌, ◌⊎◌}
use osns.Prelude.{some, List, [], ◌∷◌, ◌++◌, length, drop}
use osns.Prelude.{◌==◌, if◌then◌else◌, length-append, drop-append, drop-add, append_assoc}
use Prim.Native.Nat.{min}
use native.Mathlib.Nat.{add_comm}
use osns.Wire.{four, get_uint32}
use osns.Wire.RoundTrip.{get-four}
use osns.SshString.{u32, out_of_fuel, done, count_step, count_loop, buffer_count_strings}
use osns.SshString.RoundTrip.{encode, length-encode}

unfoldable pub encodings : List (List ℕ) → List ℕ
encodings [] = []
encodings (s ∷ ss) = encode s ++ encodings ss

-- The number of strings, cut off at a `max` that is not 0.
pub limited : ℕ → ℕ → ℕ
limited max n = if max == 0 then n else min max n

length-encodings-cons :
    (s : List ℕ) (ss : List (List ℕ))
    → length (encodings (s ∷ ss)) ≡ length s + 4 + length (encodings ss)
unfolding encodings
length-encodings-cons s ss = omega (arith, length-append (encode s) (encodings ss), length-encode s)

get-encodings :
    (s : List ℕ) (ss : List (List ℕ))
    → length s < 2 ^ 32
    → get_uint32 (encodings (s ∷ ss)) ≡ some (length s)
unfolding encodings encode
get-encodings s ss h =
    rw (append_assoc (four (length s)) s (encodings ss)) (get-four (length s) _ h)

drop-encodings :
    (s : List ℕ) (ss : List (List ℕ)) → drop (4 + length s) (encodings (s ∷ ss)) ≡ encodings ss
unfolding encodings
drop-encodings s ss =
    rw (add_comm 4 (length s), ← length-encode s) (drop-append (encode s) (encodings ss))

count_loop_round :
    (k : ℕ) (buffer : List ℕ) (size max pos count len : ℕ)
    → get_uint32 (drop pos buffer) ≡ some len
    → count_loop (suc k) buffer size max pos count
      ≡ count_step size max
          (u32 (pos + 4 + len))
          count
          len
          (count_loop k buffer size max (u32 (pos + 4 + len)) (u32 (count + 1)))
unfolding count_loop
count_loop_round k buffer size max pos count len e = rw (e, count_loop)

count_loop-encodings :
    (fuel : ℕ) (buffer s : List ℕ) (ss : List (List ℕ)) (size max pos count : ℕ)
    → drop pos buffer ≡ encodings (s ∷ ss)
    → pos + length (encodings (s ∷ ss)) ≡ size
    → size < 2 ^ 32
    → count + length ss < size
    → (max ≡ 0) ⊎ (count < max)
    → length ss < fuel
    → count_loop fuel buffer size max pos count ≡ done (limited max (count + length (s ∷ ss)))
unfolding count_step limited encodings
count_loop-encodings zero buffer s ss size max pos count at total small few room fuel =
    absurd (omega arith)
count_loop-encodings (suc k) buffer s [] size max pos count at total small few room fuel =
    let sizes = length-encodings-cons s [] in
    let next : get_uint32 (drop pos buffer) ≡ some (length s) =
      rw at (get-encodings s [] (omega arith)) in
    count_loop_round k buffer size max pos count (length s) next ∙ ground arith
count_loop-encodings (suc k) buffer s (s' ∷ ss) size max pos count at total small few room fuel =
    let sizes = length-encodings-cons s (s' ∷ ss) in
    let behind = length-encodings-cons s' ss in
    let next : get_uint32 (drop pos buffer) ≡ some (length s) =
      rw at (get-encodings s (s' ∷ ss) (omega arith)) in
    let pos' : u32 (pos + 4 + length s) ≡ pos + (4 + length s) = omega arith in
    let at' : drop (pos + (4 + length s)) buffer ≡ encodings (s' ∷ ss) =
      drop-add pos (4 + length s) buffer
      ∙ ap (drop (4 + length s)) at
      ∙ drop-encodings s (s' ∷ ss) in
    count_loop_round k buffer size max pos count (length s) next
    ∙ ground (
      arith,
      pos',
      count_loop-encodings k buffer s' ss size max (pos + (4 + length s)) (count + 1) at'
          (omega arith) small (omega arith),
    )

length-le-encodings :
    (s : List ℕ) (ss : List (List ℕ)) → 4 + length ss ≤ length (encodings (s ∷ ss))
length-le-encodings s [] = omega (arith, length-encodings-cons s [])
length-le-encodings s (s' ∷ ss) =
    omega (arith, length-encodings-cons s (s' ∷ ss), length-le-encodings s' ss)

-- On the encodings of one string or more, of less than 2 ^ 32 bytes together, the loop ends and gives
-- the number of strings, or `max` if that is not 0 and smaller.
pub buffer_count_strings-encodings :
    (s : List ℕ) (ss : List (List ℕ)) (max : ℕ)
    → length (encodings (s ∷ ss)) < 2 ^ 32
    → buffer_count_strings (encodings (s ∷ ss)) (length (encodings (s ∷ ss))) max
      ≡ done (limited max (length (s ∷ ss)))
unfolding buffer_count_strings
buffer_count_strings-encodings s ss max small =
    let many = length-le-encodings s ss in
    count_loop-encodings (length (encodings (s ∷ ss)) + 1) (encodings (s ∷ ss)) s ss _ max 0 0 refl
      (omega arith) small (omega arith) (ground arith) (omega arith)
    ∙ ap (λ (t : ℕ). done (limited max t)) (omega arith)

-- With no `max`, a length of 2 ^ 32 - 4 at the front of a buffer leaves `pos` where it is: the loop ends
-- with no fuel.
count_loop_endless :
    (fuel : ℕ) (rest : List ℕ) (size count : ℕ)
    → 0 < size
    → count_loop fuel (four (2 ^ 32 - 4) ++ rest) size 0 0 count ≡ out_of_fuel
unfolding count_loop count_step
count_loop_endless zero rest size count h = refl
count_loop_endless (suc k) rest size count h =
    count_loop_round k (four (2 ^ 32 - 4) ++ rest) size 0 0 count (2 ^ 32 - 4)
      (get-four (2 ^ 32 - 4) rest (omega arith))
    ∙ ground (arith, count_loop_endless k rest size (u32 (count + 1)))
