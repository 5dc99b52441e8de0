-- ===== src/Asn1/Lengths.antt =====
-- The lengths of DER, beside asn1_read_length of src/ssh/pk/asn1.c.
use osns.Prelude.{
  ℕ, zero, suc, ◌+◌, ◌-◌, ◌*◌, ◌/◌, ◌^◌, ◌%◌, ◌<◌, ◌≤◌, ◌≡◌, refl, ap, sym, ◌∙◌, arith, Bool, true,
  false, some, List, [], ◌∷◌, ◌++◌, if◌then◌else◌, ltb, length, length-append,
}
use osns.SshString.{u32}
use osns.Asn1.{length_loop, long_length, asn1_read_length, after_bytes}

-- The number that bytes make behind another number, the first byte first.
unfoldable pub number_from : ℕ → List ℕ → ℕ
number_from acc [] = acc
number_from acc (b ∷ ds) = number_from (acc * 256 + b) ds

abbrev pub number : List ℕ → ℕ
number ds = number_from 0 ds

length_loop-number :
    (acc : ℕ) (ds rest : List ℕ)
    → length_loop (length ds) (acc % 2 ^ 32) (ds ++ rest) ≡ some (number_from acc ds % 2 ^ 32)
unfolding length_loop number_from
length_loop-number acc [] rest = refl
length_loop-number acc (b ∷ ds) rest =
    let step : u32 (u32 (acc % 2 ^ 32 * 2 ^ 8) + b) ≡ (acc * 256 + b) % 2 ^ 32 = omega arith in
    ap (λ r. length_loop (length ds) r (ds ++ rest)) step
    ∙ length_loop-number (acc * 256 + b) ds rest

-- A length of several bytes is read modulo 2 ^ 32, if at least one byte is left behind it.
pub asn1_read_length-long :
    (ds rest : List ℕ) (old left : ℕ)
    → length ds < 128
    → length ds + 1 < left
    → left < 2 ^ 31
    → asn1_read_length ((128 + length ds) ∷ (ds ++ rest)) old left
      ≡ some (1 + length ds, number ds % 2 ^ 32)
unfolding asn1_read_length long_length
asn1_read_length-long ds rest old left short room small =
    let n : 128 + length ds - 2 ^ 7 ≡ length ds = omega arith in
    let run = length_loop-number 0 ds rest in rw (n, run) (ground arith)

-- `k` bytes of a number, the highest first.
unfoldable pub digits : ℕ → ℕ → List ℕ
digits zero n = []
digits (suc k) n = digits k (n / 256) ++ ((n % 256) ∷ [])

length-digits : (k n : ℕ) → length (digits k n) ≡ k
unfolding digits
length-digits zero n = refl
length-digits (suc k) n =
    omega (arith, length-append (digits k (n / 256)) ((n % 256) ∷ []), length-digits k (n / 256))

number_from-append :
    (acc : ℕ) (ds : List ℕ) (b : ℕ)
    → number_from acc (ds ++ (b ∷ [])) ≡ number_from acc ds * 256 + b
unfolding number_from
number_from-append acc [] b = refl
number_from-append acc (d ∷ ds) b = number_from-append (acc * 256 + d) ds b

-- How many bytes the length of a value takes, up to four.
unfoldable pub width : ℕ → ℕ
width n = if ltb n (2 ^ 8) then 1 else if ltb n (2 ^ 16) then 2 else if ltb n (2 ^ 24) then 3 else 4

-- `256 ^ k`
limit : ℕ → ℕ
limit zero = 1
limit (suc k) = limit k * 256

number-digits : (k n : ℕ) → n < limit k → number (digits k n) ≡ n
unfolding digits limit number_from
number-digits zero n small = omega arith
number-digits (suc k) n small = omega (
  arith,
  number_from-append 0 (digits k (n / 256)) (n % 256),
  number-digits k (n / 256) (omega arith),
)

width-fits : (n : ℕ) → n < 2 ^ 32 → n < limit (width n)
unfolding width limit
width-fits n small = ground arith

width_bounds : (n : ℕ) → (1 ≤ width n) × (width n ≤ 4)
unfolding width
width_bounds n = ground arith

unfoldable pub der_form : Bool → ℕ → List ℕ
unfolding width digits
der_form true n = n ∷ []
der_form false n = (128 + width n) ∷ digits (width n) n

-- The length of a value in DER: in one byte below 128, and else behind the number of its bytes.
unfoldable pub der_length : ℕ → List ℕ
unfolding der_form
der_length n = der_form (ltb n 128) n

read-der_form :
    (b : Bool) (n old left : ℕ) (rest : List ℕ)
    → ltb n 128 ≡ b
    → n < 2 ^ 32
    → length (der_form b n) < left
    → left < 2 ^ 31
    → asn1_read_length (der_form b n ++ rest) old left ≡ some (length (der_form b n), n)
unfolding der_form
read-der_form true n old left rest one fits room small = unfold asn1_read_length in ground arith
read-der_form false n old left rest more fits room small =
    let k = width n in
    let (_, most) = width_bounds n in
    let len = length-digits k n in
    let value = number-digits k n (width-fits n fits) in
    let read = asn1_read_length-long (digits k n) rest old left (omega arith) (omega arith) small in
    ap (λ j. asn1_read_length ((128 + j) ∷ (digits k n ++ rest)) old left) (sym len)
    ∙ read
    ∙ ground arith

-- A length in DER is read as the number it stands for.
pub asn1_read_length-der_length :
    (n old left : ℕ) (rest : List ℕ)
    → n < 2 ^ 32
    → length (der_length n) < left
    → left < 2 ^ 31
    → asn1_read_length (der_length n ++ rest) old left ≡ some (length (der_length n), n)
unfolding der_length
asn1_read_length-der_length n old left rest fits room small =
    read-der_form (ltb n 128) n old left rest refl fits room small

pub after_bytes-append : (xs rest : List ℕ) → after_bytes (length xs) (xs ++ rest) ≡ some rest
unfolding after_bytes
after_bytes-append [] rest = refl
after_bytes-append (x ∷ xs) rest = after_bytes-append xs rest

length-der_form : (b : Bool) (n : ℕ) → (1 ≤ length (der_form b n)) × (length (der_form b n) ≤ 5)
unfolding der_form
length-der_form true n = omega arith
length-der_form false n = omega (arith, length-digits (width n) n, (width_bounds n).1)

pub length-der_length : (n : ℕ) → (1 ≤ length (der_length n)) × (length (der_length n) ≤ 5)
unfolding der_length
length-der_length n = length-der_form (ltb n 128) n
