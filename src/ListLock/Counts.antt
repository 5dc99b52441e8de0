-- ===== src/ListLock/Counts.antt =====
-- What the operations on the lock do to the writer and the readers that its value counts.
use osns.Prelude.{
  ℕ, suc, ◌+◌, ◌/◌, ◌%◌, ◌^◌, ◌≤◌, ◌<◌, ◌≡◌, ◌⊎◌, inl, inr, refl, ap, arith, ◌∙◌, Bool, true, false,
  not, Option, none, some, Bool-cases, leb, ◌==◌, ◌&&◌, ◌||◌, if◌then◌else◌,
}
use osns.ListLock.{
  ListLock, Attempt, waits, acquired, write_lock_list, write_wake, write_unlock_list,
  read_lock_list, read_unlock_list, try_write, take_write, take_prewrite, must_wait, has_prewrite,
  has_write, set_prewrite, set_write, clear_prewrite, clear_write,
}

-- The value of the lock counts `r` readers and says of `w` that there is a writer, who is alone.
pub record Counts (v w r : ℕ) : Type 0 where
  pub write_eq : v / 2 % 2 ≡ w
  pub read_eq : v / 4 ≡ r
  pub alone : (w ≡ 0) ⊎ (r ≡ 0)

free_lem : (pre : Bool) (v : ℕ) → must_wait pre v ≡ false → (v / 2 % 2 ≡ 0) × (v ≤ 3)
unfolding must_wait has_write has_prewrite
free_lem true v h = (ground arith, ground arith)
free_lem false v h = (ground arith, ground arith)

set_write-digits :
    (v : ℕ) → v / 2 % 2 ≡ 0 → v ≤ 3 → (set_write v / 2 % 2 ≡ 1) × (set_write v / 4 ≡ 0)
unfolding set_write
set_write-digits v h small = (ground arith, ground arith)

clear_prewrite-digits :
    (v : ℕ) → (clear_prewrite v / 2 % 2 ≡ v / 2 % 2) × (clear_prewrite v / 4 ≡ v / 4)
unfolding clear_prewrite
clear_prewrite-digits v = (ground arith, ground arith)

set_prewrite-digits : (v : ℕ) → (set_prewrite v / 2 % 2 ≡ v / 2 % 2) × (set_prewrite v / 4 ≡ v / 4)
unfolding set_prewrite
set_prewrite-digits v = (ground arith, ground arith)

clear_write-digits : (v : ℕ) → (clear_write v / 2 % 2 ≡ 0) × (clear_write v / 4 ≡ v / 4)
unfolding clear_write
clear_write-digits v = (ground arith, ground arith)

pub take_write-Counts :
    (self : ℕ) (pre : Bool) (lock : ListLock) (w r : ℕ)
    → Counts (lock.value) w r
    → must_wait pre (lock.value) ≡ false
    → (w ≡ 0) × (r ≡ 0) × Counts ((take_write self pre lock).value) 1 0
unfolding take_write
take_write-Counts self pre lock w r c free =
    let (no_write, few) = free_lem pre (lock.value) free in
    let (one, zero_read) = set_write-digits (lock.value) no_write few in
    let (same_w, same_r) = clear_prewrite-digits (set_write (lock.value)) in
    let w_zero : w ≡ 0 = omega (arith, c.write_eq) in
    let r_zero : r ≡ 0 = omega (arith, c.read_eq) in
    (
      w_zero,
      r_zero,
      elim pre
          as (λ b.
            Counts (if b then clear_prewrite (set_write (lock.value)) else set_write (lock.value)) 1
              0) [
                | true ↦ record {
                  write_eq = same_w ∙ one;
                  read_eq = same_r ∙ zero_read;
                  alone = inr refl;
                }
                | false ↦ record { write_eq = one; read_eq = zero_read; alone = inr refl }
              ],
    )

pub take_prewrite-Counts :
    (self : ℕ) (lock : ListLock) (w r : ℕ)
    → Counts (lock.value) w r
    → Counts ((take_prewrite self lock).value) w r
unfolding take_prewrite
take_prewrite-Counts self lock w r c =
    let (same_w, same_r) = set_prewrite-digits (lock.value) in
    record { write_eq = same_w ∙ c.write_eq; read_eq = same_r ∙ c.read_eq; alone = c.alone }

pub unlock-Counts :
    (lock : ListLock) (r : ℕ)
    → Counts (lock.value) 1 r
    → Counts ((write_unlock_list lock).value) 0 r
unfolding write_unlock_list
unlock-Counts lock r c =
    let (none_left, same_r) = clear_write-digits (lock.value) in
    record { write_eq = none_left; read_eq = same_r ∙ c.read_eq; alone = inl refl }

pub read_unlock-Counts :
    (lock : ListLock) (w r : ℕ)
    → Counts (lock.value) w (suc r)
    → Counts ((read_unlock_list lock).value) w r
unfolding read_unlock_list
read_unlock-Counts lock w r c =
    let some_readers : leb 4 (lock.value) ≡ true = ground (arith, c.read_eq) in
    rw some_readers (record {
      write_eq = omega (arith, c.write_eq, c.read_eq);
      read_eq = omega (arith, c.read_eq);
      alone = elim (c.alone) [ inl z ↦ inl z | inr z ↦ absurd (omega (arith, z)) ];
    })

value_of : Option ListLock → ℕ
value_of none = 0
value_of (some lock) = lock.value

pub read_lock-Counts :
    (lock lock' : ListLock) (w r : ℕ)
    → Counts (lock.value) w r
    → r + 1 < 2 ^ 30
    → read_lock_list lock ≡ some lock'
    → (w ≡ 0) × Counts (lock'.value) 0 (suc r)
unfolding read_lock_list has_write has_prewrite value_of
read_lock-Counts lock lock' w r c small h =
    elim (Bool-cases (has_write (lock.value) || has_prewrite (lock.value))) [
      | inl t ↦ let h' = rw t at h in cc
      | inr f ↦
          let e : (lock.value + 4) % 2 ^ 32 ≡ lock'.value = ap value_of (rw f at h) in
          let no_write : lock.value / 2 % 2 ≡ 0 = ground arith in
          (
            omega (arith, c.write_eq),
            record {
              write_eq = omega (arith, c.read_eq, e);
              read_eq = omega (arith, c.read_eq, e);
              alone = inl refl;
            },
          )
    ]

-- What an attempt means for the counts.
unfoldable pub Fits : Attempt → ℕ → ℕ → Type 0
Fits (waits pre lock) w r = Counts (lock.value) w r
Fits (acquired lock) w r = (w ≡ 0) × (r ≡ 0) × Counts (lock.value) 1 0

try_write-Fits :
    (self : ℕ) (pre : Bool) (lock : ListLock) (w r : ℕ)
    → Counts (lock.value) w r
    → Fits (try_write self pre lock) w r
unfolding try_write Fits
try_write-Fits self pre lock w r c = elim (Bool-cases (must_wait pre (lock.value))) [
  | inl t ↦ rw t c
  | inr f ↦ rw f (take_write-Counts self pre lock w r c f)
]

pub write_lock-Fits :
    (self : ℕ) (lock : ListLock) (w r : ℕ)
    → Counts (lock.value) w r
    → Fits (write_lock_list self lock) w r
unfolding write_lock_list Fits
write_lock-Fits self lock w r c =
    elim (Bool-cases (not (has_prewrite (lock.value)) || (lock.threadidpw == self))) [
      | inl t ↦ rw t (
          try_write-Fits self true (take_prewrite self lock) w r
            (take_prewrite-Counts self lock w r c))
      | inr f ↦ rw f (try_write-Fits self false lock w r c)
    ]

pub write_wake-Fits :
    (self : ℕ) (pre : Bool) (lock : ListLock) (w r : ℕ)
    → Counts (lock.value) w r
    → Fits (write_wake self pre lock) w r
unfolding write_wake Fits
write_wake-Fits self pre lock w r c = elim (Bool-cases (must_wait pre (lock.value))) [
  | inr f ↦ rw f (take_write-Counts self pre lock w r c f)
  | inl t ↦ elim (Bool-cases (not pre && not (has_prewrite (lock.value)))) [
    | inl t' ↦
        rw (t, t')
          (try_write-Fits self true (take_prewrite self lock) w r
            (take_prewrite-Counts self lock w r c))
    | inr f ↦ rw (t, f) c
  ]
]
