-- ===== src/Memory.antt =====
-- What the C library's block operations do on byte buffers, as the sources use them: `memcpy`, `memcmp`
-- and reads of a given length. A pointer is NULL (`none`) or the bytes from there to the end of the
-- buffer; an access behind the end is `none`.
use osns.Prelude.{ℕ, zero, suc, ◌≡◌, refl, arith, Bool, true, false, Option, none, some}
use osns.Prelude.{List, [], ◌∷◌, ◌++◌, length, take, ◌==◌, ◌&&◌, ◌≤◌}

-- The first `n` bytes.
unfoldable pub read_bytes : List ℕ → ℕ → Option (List ℕ)
read_bytes mem zero = some []
read_bytes [] (suc n) = none
read_bytes (b ∷ mem) (suc n) = elim (read_bytes mem n) [ none ↦ none | some r ↦ some (b ∷ r) ]

-- `memcpy` to the front of a buffer: what the buffer holds afterwards.
unfoldable pub copy_to : List ℕ → List ℕ → Option (List ℕ)
copy_to buff [] = some buff
copy_to [] (b ∷ bytes) = none
copy_to (_ ∷ buff) (b ∷ bytes) = elim (copy_to buff bytes) [ none ↦ none | some r ↦ some (b ∷ r) ]

-- `memcpy` to `&buff[off]`.
unfoldable pub copy_at : List ℕ → ℕ → List ℕ → Option (List ℕ)
copy_at buff zero bytes = copy_to buff bytes
copy_at [] (suc off) bytes = none
copy_at (x ∷ buff) (suc off) bytes = elim (copy_at buff off bytes) [
  | none ↦ none
  | some r ↦ some (x ∷ r)
]

-- `memcmp(a, b, n) == 0` for two blocks of `n` bytes that have been read.
unfoldable pub same_bytes : List ℕ → List ℕ → Bool
same_bytes [] [] = true
same_bytes [] (y ∷ ys) = false
same_bytes (x ∷ xs) [] = false
same_bytes (x ∷ xs) (y ∷ ys) = (x == y) && same_bytes xs ys

-- The first `n` bytes at a pointer; nothing is read through NULL.
unfoldable pub bytes_at : Option (List ℕ) → ℕ → Option (List ℕ)
bytes_at none zero = some []
bytes_at none (suc n) = none
bytes_at (some mem) n = read_bytes mem n

pub read_bytes-append : (xs rest : List ℕ) → read_bytes (xs ++ rest) (length xs) ≡ some xs
unfolding read_bytes
read_bytes-append [] rest = refl
read_bytes-append (x ∷ xs) rest = rw (read_bytes-append xs rest)

pub read_bytes-all : (xs : List ℕ) → read_bytes xs (length xs) ≡ some xs
unfolding read_bytes
read_bytes-all [] = refl
read_bytes-all (x ∷ xs) = rw (read_bytes-all xs)

-- A write of as many bytes as are there leaves what is behind them.
pub copy_to-append :
    (bytes old rest : List ℕ)
    → length old ≡ length bytes
    → copy_to (old ++ rest) bytes ≡ some (bytes ++ rest)
unfolding copy_to
copy_to-append [] [] rest h = refl
copy_to-append [] (x ∷ old) rest h = absurd (omega arith)
copy_to-append (b ∷ bytes) [] rest h = absurd (omega arith)
copy_to-append (b ∷ bytes) (x ∷ old) rest h = rw (copy_to-append bytes old rest (omega arith))

pub copy_at-append :
    (front bytes old rest : List ℕ)
    → length old ≡ length bytes
    → copy_at (front ++ (old ++ rest)) (length front) bytes ≡ some (front ++ (bytes ++ rest))
unfolding copy_at
copy_at-append [] bytes old rest h = copy_to-append bytes old rest h
copy_at-append (x ∷ front) bytes old rest h = rw (copy_at-append front bytes old rest h)

-- `memcmp` is 0 exactly on equal blocks.
pub same_bytes→eq : (xs ys : List ℕ) → same_bytes xs ys ≡ true → xs ≡ ys
unfolding same_bytes
same_bytes→eq [] [] h = refl
same_bytes→eq [] (y ∷ ys) h = cc
same_bytes→eq (x ∷ xs) [] h = cc
same_bytes→eq (x ∷ xs) (y ∷ ys) h = ground (arith, same_bytes→eq xs ys)

pub same_bytes_refl : (xs : List ℕ) → same_bytes xs xs ≡ true
unfolding same_bytes
same_bytes_refl [] = refl
same_bytes_refl (x ∷ xs) = ground (arith, same_bytes_refl xs)

pub read_bytes-take :
    (n : ℕ) (xs rest : List ℕ) → n ≤ length xs → read_bytes (xs ++ rest) n ≡ some (take n xs)
unfolding read_bytes
read_bytes-take zero xs rest h = refl
read_bytes-take (suc n) [] rest h = absurd (omega arith)
read_bytes-take (suc n) (x ∷ xs) rest h = rw (read_bytes-take n xs rest (omega arith))
