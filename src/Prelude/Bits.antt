-- ===== src/Prelude/Bits.antt =====
-- The binary digits of `&` and `|`, and the fields that C code packs with them, at every width.
use Prim.Native.Nat.{ℕ, zero, suc, ◌+◌, ◌-◌, ◌*◌, ◌/◌, ◌%◌, ◌^◌, ◌≤◌, ◌<◌, min, max}
use Prim.Native.Nat.{bit_and, bit_or, digits, bitwise}
use Prim.Native.Nat.{bit_and-bitwise, bit_or-bitwise}
use mathlib.Core.Path.{◌≡◌, refl, ap, ◌∙◌}
use native.Mathlib.Nat.{pow-suc, one-le-pow, div-add-mod, mul_comm}
use native.Mathlib.Omega.{arith}

-- A recursion on digits does not depend on its fuel, once that is large enough.
module _ (z : ℕ → ℕ) (f : ℕ → ℕ → ℕ) where
  digits_stable : (n m a b : ℕ) → a ≤ n → a ≤ m → digits z f n a b ≡ digits z f m a b
  digits_stable zero zero zero b p q = refl
  digits_stable zero (suc m) zero b p q = refl
  digits_stable (suc n) zero zero b p q = refl
  digits_stable (suc n) (suc m) zero b p q = refl
  digits_stable zero m (suc a) b p q = absurd (omega arith)
  digits_stable (suc n) zero (suc a) b p q = absurd (omega arith)
  digits_stable (suc n) (suc m) (suc a) b p q =
      ap (λ (t : ℕ). t * 2 + f (suc a % 2) (b % 2))
        (digits_stable n m (suc a / 2) (b / 2) (omega arith) (omega arith))

  lowest_digit :
      (a b : ℕ)
      → bitwise z f (suc a) b ≡ bitwise z f (suc a / 2) (b / 2) * 2 + f (suc a % 2) (b % 2)
  lowest_digit a b =
      ap (λ (t : ℕ). t * 2 + f (suc a % 2) (b % 2))
        (digits_stable a (suc a / 2) (suc a / 2) (b / 2) (omega arith) (omega arith))

pub bit_or_digit : (a b : ℕ) → bit_or a b ≡ bit_or (a / 2) (b / 2) * 2 + max (a % 2) (b % 2)
bit_or_digit zero b = simp bit_or-bitwise (omega arith)
bit_or_digit (suc a) b = simp bit_or-bitwise (lowest_digit (λ y. y) max a b)

pub bit_and_digit : (a b : ℕ) → bit_and a b ≡ bit_and (a / 2) (b / 2) * 2 + min (a % 2) (b % 2)
bit_and_digit zero b = simp bit_and-bitwise (omega arith)
bit_and_digit (suc a) b = simp bit_and-bitwise (lowest_digit (λ _. 0) min a b)

-- The digit of `w` at place `k`.
pub bit : ℕ → ℕ → ℕ
bit w zero = w % 2
bit w (suc k) = bit (w / 2) k

pub bit-bit_or : (a b k : ℕ) → bit (bit_or a b) k ≡ max (bit a k) (bit b k)
unfolding bit
bit-bit_or a b zero = omega (arith, bit_or_digit a b)
bit-bit_or a b (suc k) =
    ap (λ (t : ℕ). bit t k) (omega (arith, bit_or_digit a b)) ∙ bit-bit_or (a / 2) (b / 2) k

pub bit-bit_and : (a b k : ℕ) → bit (bit_and a b) k ≡ min (bit a k) (bit b k)
unfolding bit
bit-bit_and a b zero = omega (arith, bit_and_digit a b)
bit-bit_and a b (suc k) =
    ap (λ (t : ℕ). bit t k) (omega (arith, bit_and_digit a b)) ∙ bit-bit_and (a / 2) (b / 2) k

-- Two numbers with the same digits are equal.
eq_of_bit_below : (n a b : ℕ) → a ≤ n → b ≤ n → ((k : ℕ) → bit a k ≡ bit b k) → a ≡ b
unfolding bit
eq_of_bit_below zero a b p q same = omega arith
eq_of_bit_below (suc n) a b p q same = omega (
  arith,
  same 0,
  eq_of_bit_below n (a / 2) (b / 2) (omega arith) (omega arith) (λ k. same (suc k)),
)

pub eq_of_bit : (a b : ℕ) → ((k : ℕ) → bit a k ≡ bit b k) → a ≡ b
eq_of_bit a b = eq_of_bit_below (a + b) a b (omega arith) (omega arith)

pub bit-zero : (k : ℕ) → bit 0 k ≡ 0
unfolding bit
bit-zero zero = refl
bit-zero (suc k) = bit-zero k

pub bit-le-one : (w k : ℕ) → bit w k ≤ 1
unfolding bit
bit-le-one w zero = omega arith
bit-le-one w (suc k) = bit-le-one (w / 2) k

pub bit_or-zero : (a : ℕ) → bit_or a 0 ≡ a
bit_or-zero a = eq_of_bit _ _ (λ k. omega (arith, bit-bit_or a 0 k, bit-zero k))

pub bit_and-zero : (a : ℕ) → bit_and a 0 ≡ 0
bit_and-zero a = eq_of_bit _ _ (λ k. omega (arith, bit-bit_and a 0 k, bit-zero k))

double_shift : (q k : ℕ) → q * 2 ^ suc k ≡ 2 * (q * 2 ^ k)
double_shift q k = omega (arith, ap (λ (t : ℕ). q * t) (pow-suc 2 k))

-- `(q << k) | r` is a sum where `r` has `k` bits.
pub bit_or-disjoint : (k q r : ℕ) → r < 2 ^ k → bit_or (q * 2 ^ k) r ≡ q * 2 ^ k + r
bit_or-disjoint zero q r small = ground (arith, bit_or-zero q)
bit_or-disjoint (suc k) q r small = ground (
  arith,
  double_shift q k,
  pow-suc 2 k,
  bit_or_digit (q * 2 ^ suc k) r,
  bit_or-disjoint k q (r / 2),
)

low_ones : (k q r : ℕ) → r < 2 ^ k → bit_and (q * 2 ^ k + r) (2 ^ k - 1) ≡ r
low_ones zero q r small = rw bit_and-zero (omega arith)
low_ones (suc k) q r small = ground (
  arith,
  double_shift q k,
  pow-suc 2 k,
  one-le-pow k 2,
  bit_and_digit (q * 2 ^ suc k + r) (2 ^ suc k - 1),
  low_ones k q (r / 2),
)

-- `w & (2^k - 1)` keeps the `k` low bits.
pub bit_and-low : (k w : ℕ) → bit_and w (2 ^ k - 1) ≡ w % 2 ^ k
bit_and-low k w = ground (arith, one-le-pow k 2, low_ones k (w / 2 ^ k) (w % 2 ^ k))

-- The same, with the upper field as any multiple of `2 ^ k`.
pub bit_or-field : (k a r : ℕ) → a % 2 ^ k ≡ 0 → r < 2 ^ k → bit_or a r ≡ a + r
bit_or-field k a r h small =
    let whole : a / 2 ^ k * 2 ^ k ≡ a =
      ground (arith, div-add-mod a (2 ^ k), mul_comm (2 ^ k) (a / 2 ^ k)) in
    rw whole at (bit_or-disjoint k (a / 2 ^ k) r small)
