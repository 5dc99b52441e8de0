-- ===== src/Name/Compare.antt =====
-- Names in the order of their bytes.
use osns.Prelude.{
  ℕ, zero, suc, ◌≤◌, ◌<◌, ◌≡◌, refl, ap, sym, arith, ◌∙◌, true, false, some, List, [], ◌∷◌, ◌++◌,
  ◌>>=◌, All, length, drop, ltb, ◌==◌, if◌then◌else◌, Bool-cases, length-drop, inl, inr,
}
use osns.CString.{Sign, less, same, more, text}
use osns.CString.Compare.{compare_text, or_else, strcmp-text, lead, compare-lead}
use osns.Name.{compare_names, compare_tails, calculate_nameindex, compare_name, chars_arg}
use osns.Name.Order.{IsValid, value, sign, sign-value}
use osns.Name.Index.{
  HasIndex, unnumbered, numbered, calculate-numbered, compare_text→eq, lead_short, lead-IsDigit,
  length-lead,
}

drop-short : (n : ℕ) (xs : List ℕ) → length xs ≤ n → drop n xs ≡ []
drop-short zero [] h = refl
drop-short zero (x ∷ xs) h = absurd (omega arith)
drop-short (suc n) [] h = refl
drop-short (suc n) (x ∷ xs) h = drop-short n xs (omega arith)

drop-long : (n : ℕ) (xs rest : List ℕ) → n ≤ length xs → drop n (xs ++ rest) ≡ drop n xs ++ rest
drop-long zero xs rest h = refl
drop-long (suc n) [] rest h = absurd (omega arith)
drop-long (suc n) (x ∷ xs) rest h = drop-long n xs rest (omega arith)

drop-IsValid : (n : ℕ) (xs : List ℕ) → All IsValid xs → All (λ b. 0 < b) (drop n xs)
drop-IsValid zero [] h = tt
drop-IsValid zero (x ∷ xs) (h, hs) = (omega arith, drop-IsValid zero xs hs)
drop-IsValid (suc n) [] h = tt
drop-IsValid (suc n) (x ∷ xs) (h, hs) = drop-IsValid n xs hs

above : (xs : List ℕ) → All IsValid xs → All (λ b. 32 < b) xs
above [] h = tt
above (x ∷ xs) ((h, _), hs) = (h, above xs hs)

compare_text-left : (ys : List ℕ) → 0 < length ys → compare_text [] ys ≡ less
unfolding compare_text
compare_text-left [] h = absurd (omega arith)
compare_text-left (y ∷ ys) h = refl

compare_text-right : (xs : List ℕ) → 0 < length xs → compare_text xs [] ≡ more
unfolding compare_text
compare_text-right [] h = absurd (omega arith)
compare_text-right (x ∷ xs) h = refl

compare_tails-text :
    (xs ys r s : List ℕ)
    → All IsValid xs
    → All IsValid ys
    → 6 < length xs
    → 6 < length ys
    → compare_tails (numbered xs (0 ∷ r)) (numbered ys (0 ∷ s))
      ≡ some (compare_text (drop 6 xs) (drop 6 ys))
unfolding compare_tails
compare_tails-text xs ys r s hx hy long_x long_y =
    rw (drop-long 6 xs (0 ∷ r) (omega arith), drop-long 6 ys (0 ∷ s) (omega arith))
      (strcmp-text (drop 6 xs) (drop 6 ys) r s (drop-IsValid 6 xs hx) (drop-IsValid 6 ys hy))

no_tails : (ys : List ℕ) → (if length ys == 6 then some same else some same) ≡ some same
no_tails ys = elim (Bool-cases (length ys == 6)) [ inl t ↦ rw t refl | inr f ↦ rw f refl ]

text-valid : (ys s : List ℕ) → All IsValid ys → text (ys ++ (0 ∷ s)) ≡ some ys
unfolding text
text-valid [] s h = refl
text-valid (y ∷ ys) s ((low, _), hs) = rw (text-valid ys s hs) (ground arith)

-- Names with the same number, of which the second is not shorter than six bytes unless the first is.
same_number :
    (xs ys r s : List ℕ)
    → All IsValid xs
    → All IsValid ys
    → (value (lead 32 6 xs) == value (lead 32 6 ys)) ≡ true
    → (length ys < 6 → length xs < 6)
    → compare_names (numbered xs (0 ∷ r)) (numbered ys (0 ∷ s))
      ≡ some (compare_text (drop 6 xs) (drop 6 ys))
unfolding compare_names compare_text
same_number xs ys r s hx hy e short = rw e (elim (Bool-cases (ltb 6 (length ys))) [
  | inl ty ↦ rw ty (elim (Bool-cases (ltb 6 (length xs))) [
    | inl tx ↦ rw tx (compare_tails-text xs ys r s hx hy (ground arith) (ground arith))
    | inr fx ↦
        rw (fx, drop-short 6 xs (ground arith))
          (ap (λ t. some t)
            (sym (compare_text-left (drop 6 ys) (ground (arith, length-drop 6 ys)))))
  ])
  | inr fy ↦ elim (Bool-cases (ltb 6 (length xs))) [
    | inl tx ↦
        let six : length ys ≡ 6 = ground (arith, short) in
        rw (fy, six, tx, drop-short 6 ys (omega arith))
          (ap (λ t. some t)
            (sym (compare_text-right (drop 6 xs) (ground (arith, length-drop 6 xs)))))
    | inr fx ↦
        rw (fy, fx, drop-short 6 ys (ground arith), drop-short 6 xs (ground arith)) (no_tails ys)
  ]
])

sign_refl : (n : ℕ) → sign n n ≡ same
sign_refl n = ground arith

sign-other :
    (m n : ℕ) (z : Sign)
    → (m == n) ≡ false
    → (if ltb n m then more else less) ≡ or_else (sign m n) z
sign-other m n z f = elim (Bool-cases (ltb n m)) [
  | inl t ↦ let g : ltb m n ≡ false = ground arith in rw (t, g) refl
  | inr f' ↦ let g : ltb m n ≡ true = ground arith in rw (f', g) refl
]

other_number :
    (xs ys r s : List ℕ) (z : Sign)
    → (value (lead 32 6 xs) == value (lead 32 6 ys)) ≡ false
    → compare_names (numbered xs r) (numbered ys s)
      ≡ some (or_else (sign (value (lead 32 6 xs)) (value (lead 32 6 ys))) z)
unfolding compare_names
other_number xs ys r s z f = rw f (ap (λ t. some t) (sign-other _ _ z f))

compare_names-text :
    (xs ys r s : List ℕ)
    → All IsValid xs
    → All IsValid ys
    → compare_names (numbered xs (0 ∷ r)) (numbered ys (0 ∷ s)) ≡ some (compare_text xs ys)
compare_names-text xs ys r s hx hy =
    let lx = lead 32 6 xs in
    let ly = lead 32 6 ys in
    let by_value : sign (value lx) (value ly) ≡ compare_text lx ly =
      sign-value lx ly (length-lead 6 xs ∙ sym (length-lead 6 ys)) (lead-IsDigit 6 xs hx)
        (lead-IsDigit 6 ys hy) in
    let split = compare-lead 32 6 xs ys (above xs hx) (above ys hy) in
    elim (Bool-cases (value lx == value ly)) [
      | inl t ↦
          let e : value lx ≡ value ly = ground arith in
          let s_same : compare_text lx ly ≡ same = sym by_value ∙ rw e (sign_refl (value ly)) in
          let leads = compare_text→eq lx ly s_same in
          rw (same_number xs ys r s hx hy t (lead_short 6 xs ys hx leads), split, s_same) refl
      | inr f ↦ rw (split, sym by_value) (other_number xs ys (0 ∷ r) (0 ∷ s) _ f)
    ]

-- `compare_name` decides the order of the texts, where both have a number and consist of valid bytes.
pub compare_name-text :
    (xs ys r s : List ℕ)
    → All IsValid xs
    → All IsValid ys
    → HasIndex xs
    → HasIndex ys
    → (do
      a ← calculate_nameindex (unnumbered xs (0 ∷ r))
      compare_name a (chars_arg (ys ++ (0 ∷ s))))
      ≡ some (compare_text xs ys)
unfolding compare_name
compare_name-text xs ys r s hx hy ix iy =
    rw (calculate-numbered xs (0 ∷ r) ix, text-valid ys s hy, calculate-numbered ys (0 ∷ s) iy)
      (compare_names-text xs ys r s hx hy)
