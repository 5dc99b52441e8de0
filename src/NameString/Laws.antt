-- ===== src/NameString/Laws.antt =====
-- What is read, written, compared and copied.
use osns.Prelude.{
  ℕ, ◌+◌, ◌%◌, ◌≤◌, ◌≡◌, ◌↔◌, refl, ap, sym, arith, ◌∙◌, true, some, Option, List, ◌∷◌, ◌++◌, ◌>>=◌,
  length, drop, take, leb, ◌==◌, if◌then◌else◌, Bool-cases, ==_iff, inl, inr, bit_and, le→leb,
  append_assoc, length-take, take-append-drop,
}
use osns.Memory.{
  bytes_at, same_bytes, read_bytes, read_bytes-append, read_bytes-take, copy_to-append,
  same_bytes→eq, same_bytes_refl,
}
use osns.NameString.{
  NameString, NameStringArg, name_arg, compare_name_string, compare_data, read_name_string,
  accept_name, write_name_string, write_counted, write_data, copy_name_string,
  copy_name_string_hlpr, fill, allow_truncate,
}

-- The string holds these bytes, with `rest` behind them.
abbrev pub named : List ℕ → List ℕ → NameString
named xs rest = record { len = length xs; ptr = some (xs ++ rest) }

-- The writer and the reader in one: what is read from the buffer that was written.
abbrev pub write_read : List ℕ → ℕ → NameStringArg → Option (ℕ × NameString)
write_read buffer size arg = do
  (n, b) ← write_name_string (some buffer) size arg
  mem ← b
  read_name_string mem size

-- A string is written with its length to the base 256, and all of its bytes; the reader takes as many
-- bytes as that says.
pub write-read :
    (xs more old rest : List ℕ) (size : ℕ)
    → length old ≡ 1 + length xs
    → length old ≤ size
    → write_read (old ++ rest) size (name_arg (named xs more))
      ≡ some (1 + length xs % 256, record { len = length xs % 256; ptr = some (xs ++ rest) })
unfolding write_name_string write_counted write_data bytes_at read_name_string accept_name
write-read xs more old rest size room fits =
    rw
      (
        read_bytes-append xs more,
        copy_to-append (length xs % 256 ∷ xs) old rest (omega arith),
        le→leb 1 size (omega arith),
        le→leb (1 + length xs % 256) size (omega arith),
      )
      refl

compare_data-named :
    (xs ys r s : List ℕ)
    → length xs ≡ length ys
    → compare_data (length xs) (some (xs ++ r)) (named ys s) ≡ some (same_bytes xs ys)
unfolding compare_data bytes_at
compare_data-named xs ys r s e =
    let read_xs : read_bytes (xs ++ r) (length ys) ≡ some xs =
      rw (sym e) (read_bytes-append xs r) in
    rw ((==_iff (length xs) (length ys)).1 e, read_xs, read_bytes-append ys s) refl

-- Two name strings compare as equal exactly if they hold the same bytes.
pub compare_name_iff :
    (xs ys r s : List ℕ)
    → ((compare_name_string (named ys s) (name_arg (named xs r)) ≡ some true) ↔ (xs ≡ ys))
unfolding compare_name_string compare_data
compare_name_iff xs ys r s = (
  λ e. elim (Bool-cases (length xs == length ys)) [
    | inl t ↦ ground (arith, compare_data-named xs ys r s, same_bytes→eq xs ys)
    | inr f ↦ let e' = rw f at e in cc
  ],
  λ e. ground (arith, compare_data-named xs ys r s (ap length e), same_bytes_refl ys, e),
)

-- How many bytes are copied into a string of `room` bytes.
abbrev pub copied : ℕ → ℕ → ℕ → ℕ
copied room len flags =
    if leb len room then len else if bit_and flags allow_truncate == 0 then 0 else room

fill-take :
    (n : ℕ) (buff rest xs r : List ℕ)
    → n ≤ length buff
    → n ≤ length xs
    → fill (named buff rest) (some (xs ++ r)) n
      ≡ some (record { len = length buff; ptr = some (take n xs ++ (drop n buff ++ rest)) })
unfolding fill bytes_at
fill-take n buff rest xs r room there =
    let cut : take n buff ++ (drop n buff ++ rest) ≡ buff ++ rest =
      sym (append_assoc (take n buff) (drop n buff) rest)
      ∙ ap (λ l. l ++ rest) (take-append-drop n buff) in
    let written =
      copy_to-append (take n xs) (take n buff) (drop n buff ++ rest)
        (omega (arith, length-take n xs there, length-take n buff room)) in
    rw (read_bytes-take n xs r there, rw cut at written) refl

-- The copy puts the front of the one string into the other, as long as that has room for all of it or the
-- flag lets it be truncated, and leaves what is behind the bytes that it counts.
pub copy_name_string-take :
    (buff rest xs r : List ℕ) (flags : ℕ)
    → (copy_name_string (named buff rest) (name_arg (named xs r)) flags ≡ (
        let n = copied (length buff) (length xs) flags in
        some (n, record { len = length buff; ptr = some (take n xs ++ (drop n buff ++ rest)) })))
      × (copied (length buff) (length xs) flags ≤ length buff)
unfolding copy_name_string copy_name_string_hlpr
copy_name_string-take buff rest xs r flags = elim (Bool-cases (leb (length xs) (length buff))) [
  | inl t ↦
      (rw (t, fill-take (length xs) buff rest xs r (ground arith) (omega arith)) refl, ground arith)
  | inr f ↦ elim (Bool-cases (bit_and flags allow_truncate == 0)) [
    | inl t ↦ (rw (f, t) refl, rw (f, t) (omega arith))
    | inr f' ↦ (
      rw (f, f', fill-take (length buff) buff rest xs r (omega arith) (ground arith)) refl,
      rw (f, f') (omega arith),
    )
  ]
]
