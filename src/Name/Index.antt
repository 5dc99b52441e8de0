-- ===== src/Name/Index.antt =====
-- What `calculate_nameindex` gives a name, and what `compare_names` makes of it.
use osns.Prelude.{
  ℕ, zero, suc, ◌*◌, ◌^◌, ◌≤◌, ◌<◌, ◌≡◌, refl, ap, sym, arith, true, false, some, none, List, [],
  ◌∷◌, ◌++◌, All, length, take, ltb, if◌then◌else◌, Bool-cases, inl, inr,
}
use osns.Memory.{bytes_at, copy_to, read_bytes-append, read_bytes-take}
use osns.CString.{same}
use osns.CString.Compare.{compare_text, front, behind, lead}
use osns.Name.{Name, letter, calculate_nameindex_hlp, index_of_buffer, calculate_nameindex}
use osns.Name.Order.{IsValid, IsDigit, value}

blanks : ℕ → List ℕ
blanks zero = []
blanks (suc n) = 32 ∷ blanks n

lead-blanks : (n : ℕ) → lead 32 n [] ≡ blanks n
unfolding blanks lead front behind
lead-blanks zero = refl
lead-blanks (suc n) = ap (λ l. 32 ∷ l) (lead-blanks n)

copy_to-lead : (n : ℕ) (xs : List ℕ) → copy_to (blanks n) (take n xs) ≡ some (lead 32 n xs)
unfolding copy_to blanks lead front behind
copy_to-lead zero xs = refl
copy_to-lead (suc n) [] = ap (λ l. some (32 ∷ l)) (sym (lead-blanks n))
copy_to-lead (suc n) (x ∷ xs) = rw (copy_to-lead n xs)

pub lead-IsDigit : (n : ℕ) (xs : List ℕ) → All IsValid xs → All IsDigit (lead 32 n xs)
unfolding lead front behind
lead-IsDigit zero xs h = tt
lead-IsDigit (suc n) [] h = ((omega arith, omega arith), lead-IsDigit n [] h)
lead-IsDigit (suc n) (x ∷ xs) ((low, high), hs) = ((omega arith, high), lead-IsDigit n xs hs)

pub length-lead : (n : ℕ) (xs : List ℕ) → length (lead 32 n xs) ≡ n
unfolding lead
length-lead zero xs = refl
length-lead (suc n) xs = omega (arith, length-lead n (behind xs))

-- The padding tells how long a short text is.
pub lead_short :
    (n : ℕ) (xs ys : List ℕ)
    → All IsValid xs
    → lead 32 n xs ≡ lead 32 n ys
    → length ys < n
    → length xs < n
unfolding lead front behind
lead_short zero xs ys h e short = absurd (omega arith)
lead_short (suc n) [] ys h e short = omega arith
lead_short (suc n) (x ∷ xs) [] ((low, _), hs) e short =
    let x_blank : x ≡ 32 = ap (front 32) e in absurd (omega arith)
lead_short (suc n) (x ∷ xs) (y ∷ ys) (_, hs) e short =
    omega (arith, lead_short n xs ys hs (ap behind e) (omega arith))

pub compare_text→eq : (xs ys : List ℕ) → compare_text xs ys ≡ same → xs ≡ ys
unfolding compare_text
compare_text→eq [] [] h = refl
compare_text→eq [] (y ∷ ys) h = cc
compare_text→eq (x ∷ xs) [] h = cc
compare_text→eq (x ∷ xs) (y ∷ ys) h = ground (arith, compare_text→eq xs ys)

take-all : (n : ℕ) (xs : List ℕ) → length xs ≤ n → take n xs ≡ xs
take-all zero [] h = refl
take-all zero (x ∷ xs) h = absurd (omega arith)
take-all (suc n) [] h = refl
take-all (suc n) (x ∷ xs) h = rw (take-all n xs (omega arith))

-- The bytes that `calculate_nameindex` copies.
pub copied :
    (xs rest : List ℕ)
    → bytes_at (some (xs ++ rest)) (if ltb 5 (length xs) then 6 else length xs) ≡ some (take 6 xs)
unfolding bytes_at
copied xs rest = elim (Bool-cases (ltb 5 (length xs))) [
  | inl t ↦ rw t (read_bytes-take 6 xs rest (ground arith))
  | inr f ↦ rw (f, take-all 6 xs (ground arith)) (read_bytes-append xs rest)
]

-- The product with the second letter does not overflow.
abbrev pub HasIndex : List ℕ → Type 0
HasIndex xs = letter (front 32 (behind xs)) < 30

index_of_buffer-lead :
    (xs : List ℕ) → HasIndex xs → index_of_buffer (lead 32 6 xs) ≡ some (value (lead 32 6 xs))
unfolding index_of_buffer calculate_nameindex_hlp value lead
index_of_buffer-lead xs h =
    let fits : ltb (letter (front 32 (behind xs)) * 71639296) (2 ^ 31) ≡ true = ground arith in
    rw fits (ap (λ (i : ℕ). some i) (omega arith))

-- A name that stands in a buffer, with no number yet.
abbrev pub unnumbered : List ℕ → List ℕ → Name
unnumbered xs rest = record { name = some (xs ++ rest); len = length xs; index = 0 }

abbrev pub numbered : List ℕ → List ℕ → Name
numbered xs rest = record {
  name = some (xs ++ rest);
  len = length xs;
  index = value (lead 32 6 xs);
}

pub calculate-numbered :
    (xs rest : List ℕ)
    → HasIndex xs
    → calculate_nameindex (unnumbered xs rest) ≡ some (numbered xs rest)
unfolding calculate_nameindex blanks
calculate-numbered xs rest h =
    rw (copied xs rest, copy_to-lead 6 xs, index_of_buffer-lead xs h) refl

-- Where the second byte of a name is above 61, as every letter is, the number is computed with an
-- overflow of a signed int.
calculate_nameindex-overflow :
    (xs rest : List ℕ)
    → 62 ≤ front 32 (behind xs)
    → front 32 (behind xs) < 256
    → calculate_nameindex (unnumbered xs rest) ≡ none
unfolding calculate_nameindex blanks index_of_buffer calculate_nameindex_hlp lead letter
calculate_nameindex-overflow xs rest h byte =
    let large : ltb (letter (front 32 (behind xs)) * 71639296) (2 ^ 31) ≡ false = ground arith in
    rw (copied xs rest, copy_to-lead 6 xs, large) refl
