-- ===== src/Asn1/Reads.antt =====
-- What asn1_read_tlv of src/ssh/pk/asn1.c reads, and where.
use osns.Prelude.{
  ℕ, zero, suc, ◌+◌, ◌-◌, ◌/◌, ◌^◌, ◌<◌, ◌≤◌, ◌≡◌, refl, ap, ◌∙◌, arith, Option, Bool, true, false,
  some, List, [], ◌∷◌, ◌++◌, ◌==◌, if◌then◌else◌, ltb, length, drop, append_assoc, Bool-cases, inl,
  inr, ◌⊎◌,
}
use osns.Prelude.Int.{ℤ, pos, negsuc}
use osns.SshString.{u32}
use osns.Asn1.{
  Tlv, tag_integer, length_loop, long_length, asn1_read_length, after_bytes, reaches, total,
  finish_tlv, read_behind_tag, read_from_tag, asn1_read_tlv, tlv_init,
}
use osns.Asn1.Lengths.{
  der_form, der_length, length-der_length, asn1_read_length-der_length, after_bytes-append,
}

-- A value with its tag and length.
unfoldable pub der : ℕ → List ℕ → List ℕ
unfolding der_length
der tag xs = tag ∷ (der_length (length xs) ++ xs)

-- What is read of a tag and a length: `bytes` counts the value of an integer too.
abbrev pub tlv_of : ℕ → ℕ → List ℕ → Tlv
tlv_of tag n behind = record {
  tag = tag;
  len = n;
  bytes =
      if tag == tag_integer
      then u32 (1 + (length (der_length n) + n))
      else u32 (1 + length (der_length n));
  at = some behind;
}

der_length-cons : (n : ℕ) → (b : ℕ) × (bs : List ℕ) × (der_length n ≡ b ∷ bs)
unfolding der_length der_form
der_length-cons n = go (ltb n 128)
  where
    go : (b : Bool) → (d : ℕ) × (ds : List ℕ) × (der_form b n ≡ d ∷ ds)
    go true = (_, _, refl)
    go false = (_, _, refl)

finish_tlv-cons :
    (b : ℕ) (bs behind : List ℕ) (tlv : Tlv)
    → finish_tlv ((b ∷ bs) ++ behind) tlv (length (b ∷ bs))
      ≡ some (pos 0, record tlv { at = some behind; bytes = total tlv (length (b ∷ bs)) })
unfolding finish_tlv
finish_tlv-cons b bs behind tlv = rw (after_bytes-append (b ∷ bs) behind) refl

-- Where a tag and a length stand in front of bytes, and both are within a size below 2 ^ 31, the length is
-- read, and the place behind it. Whether that many bytes are there is not tested.
pub asn1_read_tlv-der_length :
    (tag n size : ℕ) (behind : List ℕ)
    → n < 2 ^ 32
    → 1 + length (der_length n) < size
    → size < 2 ^ 31
    → asn1_read_tlv (tag ∷ (der_length n ++ behind)) size ≡ some (pos 0, tlv_of tag n behind)
unfolding asn1_read_tlv read_from_tag read_behind_tag
asn1_read_tlv-der_length tag n size behind fits room small =
    let (b, bs, form) = der_length-cons n in
    let len : length (der_length n) ≡ suc (length bs) = ap length form in
    let open_ : reaches 2 size ≡ false = ground arith in
    let read = asn1_read_length-der_length n 0 (size - 1) behind fits (omega arith) (omega arith) in
    let tlv : Tlv = record tlv_init { tag = tag; bytes = 1; len = n } in
    let finish : finish_tlv (der_length n ++ behind) tlv (length (der_length n))
        ≡ some (pos 0, record tlv { at = some behind; bytes = total tlv (length (der_length n)) }) =
      rw form (finish_tlv-cons b bs behind tlv) in
    rw (open_, read) finish

-- A value in DER, before anything else, is read: its tag, its length and its place.
pub asn1_read_tlv-der :
    (tag : ℕ) (xs rest : List ℕ) (size : ℕ)
    → length xs < 2 ^ 32
    → 1 + length (der_length (length xs)) < size
    → size < 2 ^ 31
    → asn1_read_tlv (der tag xs ++ rest) size ≡ some (pos 0, tlv_of tag (length xs) (xs ++ rest))
unfolding der
asn1_read_tlv-der tag xs rest size fits room small =
    ap (λ m. asn1_read_tlv (tag ∷ m) size) (append_assoc (der_length (length xs)) xs rest)
    ∙ asn1_read_tlv-der_length tag (length xs) size (xs ++ rest) fits room small

-- An integer is taken whose length is more than the bytes behind it, and the total number of bytes is
-- then more than the size.
asn1_read_tlv-overlong :
    (n size : ℕ) (behind : List ℕ)
    → n < 2 ^ 32 - 6
    → size ≡ 1 + length (der_length n) + length behind
    → 0 < length behind
    → length behind < n
    → size < 2 ^ 31
    → (tlv : Tlv) × (asn1_read_tlv (tag_integer ∷ (der_length n ++ behind)) size
        ≡ some (pos 0, tlv))
      × (size < tlv.bytes)
asn1_read_tlv-overlong n size behind fits whole some_bytes short small = (
  tlv_of tag_integer n behind,
  asn1_read_tlv-der_length tag_integer n size behind (omega arith) (omega arith) small,
  omega (arith, length-der_length n),
)

length_loop-total :
    (n acc : ℕ) (mem : List ℕ) → n ≤ length mem → (r : ℕ) × (length_loop n acc mem ≡ some r)
unfolding length_loop
length_loop-total zero acc mem room = (acc, refl)
length_loop-total (suc n) acc [] room = absurd (omega arith)
length_loop-total (suc n) acc (b ∷ mem) room = length_loop-total n _ mem (omega arith)

long_length-bounds :
    (value old left : ℕ) (mem : List ℕ)
    → left ≤ length mem + 1
    → 0 < left
    → (count len : ℕ) × (long_length value mem old left ≡ some (count, len)) × (count < left)
unfolding long_length
long_length-bounds value old left mem room some_left =
    elim (Bool-cases (reaches (value + 1) left)) [
      | inl far ↦ (0, old, rw far refl, some_left)
      | inr near ↦
          let (r, loop) = length_loop-total value 0 mem (ground arith) in
          (1 + value, r, rw (near, loop) refl, ground arith)
    ]

-- The bytes of a length are read within `left` bytes, and at least one of these is behind them.
asn1_read_length-bounds :
    (mem : List ℕ) (old left : ℕ)
    → left ≤ length mem
    → 1 < left
    → (count len : ℕ) × (asn1_read_length mem old left ≡ some (count, len)) × (count < left)
unfolding asn1_read_length
asn1_read_length-bounds [] old left room some_left = absurd (omega arith)
asn1_read_length-bounds (value ∷ mem) old left room some_left =
    elim (Bool-cases (value / 2 ^ 7 == 1)) [
      | inl more ↦
          let (count, len, read, below) =
            long_length-bounds (value - 2 ^ 7) old left mem (omega arith) (omega arith) in
          (count, len, rw (more, read) refl, below)
      | inr one ↦ (1, value, rw one refl, some_left)
    ]

after_bytes-drop : (n : ℕ) (mem : List ℕ) → n ≤ length mem → after_bytes n mem ≡ some (drop n mem)
unfolding after_bytes
after_bytes-drop zero mem room = refl
after_bytes-drop (suc n) [] room = absurd (omega arith)
after_bytes-drop (suc n) (b ∷ mem) room = after_bytes-drop n mem (omega arith)

-- The two results of asn1_read_tlv on a buffer: an error, or a place behind at least two of its bytes and
-- not behind `size`.
abbrev pub ReadWithin : List ℕ → ℕ → Option (ℤ × Tlv) → Type 0
ReadWithin mem size r =
    (tlv : Tlv) × ((r ≡ some (negsuc 0, tlv))
      ⊎ ((n : ℕ) × (r ≡ some (pos 0, tlv)) × (tlv.at ≡ some (drop n mem)) × (1 < n) × (n ≤ size)))

finish_tlv-within :
    (b : ℕ) (mem : List ℕ) (tlv : Tlv) (size count : ℕ)
    → size ≤ length mem + 1
    → count < size
    → ReadWithin (b ∷ mem) size (finish_tlv mem tlv count)
unfolding finish_tlv
finish_tlv-within b mem tlv size zero room below = (tlv, inl refl)
finish_tlv-within b mem tlv size (suc n) room below =
    let found = after_bytes-drop (suc n) mem (omega arith) in
    (
      record tlv { at = some (drop (suc n) mem); bytes = total tlv (suc n) },
      inr (suc (suc n), rw found refl, refl, omega arith, omega arith),
    )

read_from_tag-within :
    (mem : List ℕ) (size : ℕ)
    → size ≤ length mem
    → 2 < size
    → ReadWithin mem size (read_from_tag mem size)
unfolding read_from_tag read_behind_tag
read_from_tag-within [] size room more = absurd (omega arith)
read_from_tag-within (tag ∷ mem) size room more =
    let (count, len, read, below) =
      asn1_read_length-bounds mem 0 (size - 1) (omega arith) (omega arith) in
    rw read (finish_tlv-within tag mem _ size count (omega arith) (omega arith))

-- Whatever a buffer holds, no byte behind `size` is read, if the buffer has that many: there is an error,
-- or the value begins within `size`.
pub asn1_read_tlv-bounds :
    (mem : List ℕ) (size : ℕ) → size ≤ length mem → ReadWithin mem size (asn1_read_tlv mem size)
unfolding asn1_read_tlv read_from_tag read_behind_tag
asn1_read_tlv-bounds mem size room = elim (Bool-cases (reaches 2 size)) [
  | inl small ↦ (tlv_init, inl (rw small refl))
  | inr open_ ↦ rw open_ (read_from_tag-within mem size room (ground arith))
]
