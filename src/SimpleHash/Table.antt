-- ===== src/SimpleHash/Table.antt =====
-- What it is for a group to be a table, and what a lookup in it finds.
use osns.Prelude.{
  ℕ, zero, suc, ◌+◌, ◌%◌, ◌<◌, ◌≡◌, refl, sym, subst, arith, Bool, true, false, Option, none, some,
  List, [], ◌∷◌, ◌++◌, append_assoc, length, All, ◌==◌, if◌then◌else◌,
}
use native.Mathlib.Nat.{mod-lt}
use osns.SshString.{done}
use osns.SimpleList.{Addr}
use osns.SimpleList.Lists.{IsList}
use osns.SimpleList.Take.{first, get_list_head-first}
use osns.SimpleList.Walk.{find, get_next_element-first}
use osns.SimpleList.Others.{IsElement}
use osns.SimpleHash.{Group, stored, slot, lookup_loop, lookup_simple_hash}

-- The element holds a value with this remainder of its hash.
abbrev pub InSlot : (ℕ → ℕ) → Group → ℕ → Addr → Type 0
InSlot hashfunction g i a = (d : ℕ) × (stored a g ≡ some d) × (hashfunction d % g.len ≡ i)

-- The headers of the group, from `base` on, have the lists `b`, and each element is in its bucket.
pub record IsTable (hashfunction : ℕ → ℕ) (g : Group) (base : ℕ) (b : ℕ → List Addr) : Type 0 where
  pub hash_eq : g.hash ≡ some base
  pub some_buckets : 0 < g.len
  pub lists : (i : ℕ) → i < g.len → IsList g.heap (base + i) (b i)
  pub elements : (i : ℕ) → i < g.len → All IsElement (b i)
  pub placed : (i : ℕ) → i < g.len → All (InSlot hashfunction g i) (b i)

-- Whether the element holds the value.
unfoldable pub holds : Group → ℕ → Addr → Bool
holds g d a = elim (stored a g) [ none ↦ false | some v ↦ v == d ]

pub slot-some :
    (hashfunction : ℕ → ℕ) (g : Group) (base : ℕ) (b : ℕ → List Addr) (value : ℕ)
    → IsTable hashfunction g base b
    → slot value g ≡ some (base + value % g.len)
unfolding slot
slot-some hashfunction g base b value table =
    let not_empty : (g.len == 0) ≡ false = ground (arith, table.some_buckets) in
    rw (not_empty, table.hash_eq) refl

if_done :
    (c : Bool) (e : Addr) (o : Option Addr)
    → (if c then done (some e) else done o) ≡ done (if c then some e else o)
if_done true e o = refl
if_done false e o = refl

lookup_loop-find :
    (hashfunction : ℕ → ℕ) (g : Group) (k i d fuel : ℕ) (ys zs : List Addr)
    → IsList g.heap k (ys ++ zs)
    → All (InSlot hashfunction g i) zs
    → length zs < fuel
    → lookup_loop hashfunction fuel d (first zs) g ≡ done (find (holds g d) zs)
unfolding lookup_loop first find holds
lookup_loop-find h g k i d zero ys zs list placed enough = absurd (omega arith)
lookup_loop-find h g k i d (suc fuel) ys [] list placed enough = refl
lookup_loop-find h g k i d (suc fuel) ys (e ∷ zs) list ((v, at_e, _), placed) enough =
    let rest =
      lookup_loop-find h g k i d fuel (ys ++ (e ∷ [])) zs
        (subst (IsList g.heap k) (sym (append_assoc ys (e ∷ []) zs)) list) placed (omega arith) in
    rw (lookup_loop, holds, at_e, get_next_element-first (g.heap) k ys zs e list, rest)
      (if_done (v == d) e _)

-- A lookup in a table ends, and finds the first element with the value in the bucket of its hash.
pub lookup_simple_hash-find :
    (hashfunction : ℕ → ℕ) (g : Group) (base : ℕ) (b : ℕ → List Addr) (d : ℕ)
    → IsTable hashfunction g base b
    → lookup_simple_hash hashfunction d g ≡ done (find (holds g d) (b (hashfunction d % g.len)))
unfolding lookup_simple_hash
lookup_simple_hash-find h g base b d table =
    let i = h d % g.len in
    let i_lt = mod-lt (h d) (table.some_buckets) in
    let list = table.lists i i_lt in
    rw
      (
        lookup_simple_hash,
        slot-some h g base b (h d) table,
        get_list_head-first (g.heap) (base + i) (b i) list,
      )
      (lookup_loop-find h g (base + i) i d _ [] (b i) list (table.placed i i_lt)
        (omega (arith, list.count_eq)))
