-- ===== src/Channels/Total.antt =====
-- The number of channels in the rows.
use osns.Prelude.{
  ℕ, zero, suc, ◌+◌, ◌≤◌, ◌<◌, ◌≡◌, refl, arith, false, Bool-cases, inl, inr, List, length, ◌==◌,
  ==_refl,
}
use osns.SimpleList.{Addr}
use osns.SimpleHash.Change.{update}

-- The number in the first `n` rows.
unfoldable pub total : ℕ → (ℕ → List Addr) → ℕ
total zero b = 0
total (suc n) b = length (b n) + total n b

total-outside :
    (n s : ℕ) (b : ℕ → List Addr) (xs : List Addr) → n ≤ s → total n (update b s xs) ≡ total n b
unfolding total
total-outside zero s b xs out = refl
total-outside (suc n) s b xs out =
    let f : (s == n) ≡ false = ground arith in rw (f, total-outside n s b xs (omega arith)) refl

-- One row gets another list.
pub total-update :
    (n s : ℕ) (b : ℕ → List Addr) (xs : List Addr)
    → s < n
    → total n (update b s xs) + length (b s) ≡ total n b + length xs
unfolding total
total-update zero s b xs inside = absurd (omega arith)
total-update (suc n) s b xs inside = elim (Bool-cases (s == n)) [
  | inl t ↦
      let e : n ≡ s = ground arith in
      rw (e, ==_refl s, total-outside s s b xs (omega arith)) (omega arith)
  | inr f ↦
      let inside' : s < n = ground arith in
      let rest = total-update n s b xs inside' in rw f (omega (arith, rest))
]
