-- ===== src/Name.antt =====
-- Names with a number that orders them: src/lib/datatypes/name.c and name.h. A pointer is NULL or the
-- bytes from there; what the C standard leaves undefined is `none`.
mod Tests
pub mod Order
pub mod Index
pub mod Compare
use osns.Prelude.{
  ℕ, ◌+◌, ◌*◌, ◌%◌, ◌^◌, Bool, Option, none, some, List, [], ◌∷◌, ◌>>=◌, length, drop, ltb, ◌==◌,
  if◌then◌else◌,
}
use osns.Memory.{bytes_at, copy_to}
use osns.CString.{Sign, less, same, more, text, strcmp}
use osns.SshString.{SshString}

-- `struct name_s`
pub record Name : Type 0 where
  pub name : Option (List ℕ)
  pub len : ℕ
  pub index : ℕ

unfoldable pub init_name : Name
init_name = record { name = none; len = 0; index = 0 }

-- On a struct that is there.
unfoldable pub set_name : Name → Option (List ℕ) → ℕ → Name
set_name a none len = a
set_name a (some s) len = record a { name = some s; len = len }

unfoldable pub set_name_from : Name → ℕ → SshString → Name
set_name_from a type s = if type == b's' then record a { name = s.ptr; len = s.len } else a

-- `strcmp(a->name + 6, b->name + 6)`
unfoldable pub compare_tails : Name → Name → Option Sign
compare_tails a b = do x ← a.name; y ← b.name; strcmp (drop 6 x) (drop 6 y)

unfoldable pub compare_names : Name → Name → Option Sign
compare_names a b =
    if a.index == b.index
    then (if ltb 6 b.len
        then (if ltb 6 a.len then compare_tails a b else some less)
        else if b.len == 6
        then some (if ltb 6 a.len then more else same)
        else some same)
    else some (if ltb b.index a.index then more else less)

-- The difference with 32, as an `unsigned char`.
unfoldable pub letter : ℕ → ℕ
letter c = (c + 224) % 256

-- The factor of the first letter is a `long`. The other products are of type `int`, and of these only the
-- one with `NAMEINDEX_ROOT4` can overflow.
unfoldable pub calculate_nameindex_hlp : ℕ → ℕ → ℕ → ℕ → ℕ → ℕ → Option ℕ
unfolding letter
calculate_nameindex_hlp c1 c2 c3 c4 c5 c6 =
    if ltb (letter c2 * 71639296) (2 ^ 31)
    then some (
        letter c1 * 6590815232
        + letter c2 * 71639296
        + letter c3 * 778688
        + letter c4 * 8464
        + letter c5 * 92
        + letter c6)
    else none

-- On the six bytes of a buffer.
unfoldable pub index_of_buffer : List ℕ → Option ℕ
index_of_buffer (c1 ∷ c2 ∷ c3 ∷ c4 ∷ c5 ∷ c6 ∷ []) = calculate_nameindex_hlp c1 c2 c3 c4 c5 c6
index_of_buffer buffer = none

unfoldable pub calculate_nameindex : Name → Option Name
calculate_nameindex name = do
  bytes ← bytes_at name.name (if ltb 5 name.len then 6 else name.len)
  buffer ← copy_to (32 ∷ 32 ∷ 32 ∷ 32 ∷ 32 ∷ 32 ∷ []) bytes
  index ← index_of_buffer buffer
  some (record name { index = index })

-- What a name is compared with: the cases of `type`.
pub data NameArg : Type 0 where
  name_arg : Name → NameArg
  chars_arg : List ℕ → NameArg
  other_arg : NameArg

unfoldable pub compare_name : Name → NameArg → Option Sign
compare_name a (name_arg b) = compare_names a b
compare_name a (chars_arg tmp) = do
  t ← text tmp
  b ← calculate_nameindex (record { name = some tmp; len = length t; index = 0 })
  compare_names a b
compare_name a other_arg = some less
