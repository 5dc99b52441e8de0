-- ===== src/CString/Compare.antt =====
-- The order of texts that `strcmp` decides, and how it splits at a number of bytes.
use osns.Prelude.{
  ℕ, zero, suc, ◌<◌, ◌≡◌, refl, arith, some, List, [], ◌∷◌, ◌++◌, All, drop, ltb, if◌then◌else◌,
}
use osns.CString.{Sign, less, same, more, strcmp}

-- The first difference decides, and a text comes behind its beginnings.
unfoldable pub compare_text : List ℕ → List ℕ → Sign
compare_text [] [] = same
compare_text [] (y ∷ ys) = less
compare_text (x ∷ xs) [] = more
compare_text (x ∷ xs) (y ∷ ys) =
    let rest = compare_text xs ys in if ltb x y then less else if ltb y x then more else rest

abbrev pub or_else : Sign → Sign → Sign
or_else less s = less
or_else same s = s
or_else more s = more

pub strcmp-text :
    (xs ys r s : List ℕ)
    → All (λ b. 0 < b) xs
    → All (λ b. 0 < b) ys
    → strcmp (xs ++ (0 ∷ r)) (ys ++ (0 ∷ s)) ≡ some (compare_text xs ys)
unfolding strcmp compare_text
strcmp-text [] [] r s hx hy = refl
strcmp-text [] (y ∷ ys) r s hx (hy, _) = ground arith
strcmp-text (x ∷ xs) [] r s (hx, _) hy = ground arith
strcmp-text (x ∷ xs) (y ∷ ys) r s (hx, hxs) (hy, hys) =
    rw (strcmp-text xs ys r s hxs hys) (ground arith)

-- The first byte, or what pads a text that has ended, and the bytes behind the first.
unfoldable pub front : ℕ → List ℕ → ℕ
front pad [] = pad
front pad (x ∷ xs) = x

unfoldable pub behind : List ℕ → List ℕ
behind [] = []
behind (x ∷ xs) = xs

-- A text cut or padded to `n` bytes.
unfoldable pub lead : ℕ → ℕ → List ℕ → List ℕ
lead pad zero xs = []
lead pad (suc n) xs = front pad xs ∷ lead pad n (behind xs)

pub compare-lead :
    (pad n : ℕ) (xs ys : List ℕ)
    → All (λ b. pad < b) xs
    → All (λ b. pad < b) ys
    → compare_text xs ys
      ≡ or_else
          (compare_text (lead pad n xs) (lead pad n ys))
          (compare_text (drop n xs) (drop n ys))
unfolding compare_text lead front behind
compare-lead pad zero xs ys hx hy = refl
compare-lead pad (suc n) [] [] hx hy = ground (arith, compare-lead pad n [] [] hx hy)
compare-lead pad (suc n) [] (y ∷ ys) hx (hy, _) = ground arith
compare-lead pad (suc n) (x ∷ xs) [] (hx, _) hy = ground arith
compare-lead pad (suc n) (x ∷ xs) (y ∷ ys) (hx, hxs) (hy, hys) =
    rw (compare-lead pad n xs ys hxs hys) (ground arith)
