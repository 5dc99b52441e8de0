-- ===== src/Name/Order.antt =====
-- The number of a name and the order of its bytes.
use osns.Prelude.{
  ℕ, suc, ◌+◌, ◌*◌, ◌≤◌, ◌<◌, ◌^◌, ◌≡◌, inl, inr, refl, sym, subst, arith, List, [], ◌∷◌, All,
  length, ltb, if◌then◌else◌, Bool-cases,
}
use native.Mathlib.Nat.{mul-le-mul_right, pow-suc}
use osns.CString.{Sign, less, same, more}
use osns.CString.Compare.{compare_text, or_else}
use osns.Name.{letter}

-- A visible byte with a digit for the number, which has 92 of them.
abbrev pub IsValid : ℕ → Type 0
IsValid c = (32 < c) × (c < 124)

-- The same, or the byte that pads.
abbrev pub IsDigit : ℕ → Type 0
IsDigit c = (32 ≤ c) × (c < 124)

abbrev pub sign : ℕ → ℕ → Sign
sign m n = if ltb m n then less else if ltb n m then more else same

-- A larger digit outweighs what stands behind it.
lt-scale : (w x y : ℕ) → x < y → x * w + w ≤ y * w
lt-scale w x y h = omega (arith, mul-le-mul_right {m = suc x} {n = y} w h)

sign-step :
    (w x y p q : ℕ) → p < w → q < w → sign (x * w + p) (y * w + q) ≡ or_else (sign x y) (sign p q)
sign-step w x y p q hp hq = elim (Bool-cases (ltb x y)) [
  | inl t ↦ ground (arith, lt-scale w x y)
  | inr f ↦ elim (Bool-cases (ltb y x)) [
    | inl t ↦ ground (arith, lt-scale w y x)
    | inr f' ↦ let e : x ≡ y = ground arith in rw e (ground arith)
  ]
]

sign-letter : (c d : ℕ) → IsDigit c → IsDigit d → sign (letter c) (letter d) ≡ sign c d
unfolding letter
sign-letter c d hc hd = ground arith

-- The number that a text spells with digits to the base 92.
unfoldable pub value : List ℕ → ℕ
value [] = 0
value (c ∷ cs) = letter c * 92 ^ length cs + value cs

letter-lt : (c : ℕ) → IsDigit c → letter c < 92
unfolding letter
letter-lt c h = ground arith

value-lt : (cs : List ℕ) → All IsDigit cs → value cs < 92 ^ length cs
unfolding value
value-lt [] h = omega arith
value-lt (c ∷ cs) (h, hs) = omega (
  arith,
  value-lt cs hs,
  lt-scale (92 ^ length cs) (letter c) 92 (letter-lt c h),
  pow-suc 92 (length cs),
)

compare_text-step :
    (x y : ℕ) (xs ys : List ℕ)
    → compare_text (x ∷ xs) (y ∷ ys) ≡ or_else (sign x y) (compare_text xs ys)
unfolding compare_text
compare_text-step x y xs ys = ground arith

pub sign-value :
    (cs ds : List ℕ)
    → length cs ≡ length ds
    → All IsDigit cs
    → All IsDigit ds
    → sign (value cs) (value ds) ≡ compare_text cs ds
unfolding value compare_text
sign-value [] [] e hc hd = refl
sign-value [] (d ∷ ds) e hc hd = absurd (omega arith)
sign-value (c ∷ cs) [] e hc hd = absurd (omega arith)
sign-value (c ∷ cs) (d ∷ ds) e (hc, hcs) (hd, hds) =
    let e' : length cs ≡ length ds = omega arith in
    let bound : value cs < 92 ^ length ds =
      subst (λ (n : ℕ). value cs < 92 ^ n) e' (value-lt cs hcs) in
    let step = sign-step (92 ^ length ds) (letter c) (letter d) _ _ bound (value-lt ds hds) in
    rw (e', step, sign-letter c d hc hd, sign-value cs ds e' hcs hds)
      (sym (compare_text-step c d cs ds))
