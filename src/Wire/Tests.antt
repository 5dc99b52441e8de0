-- ===== src/Wire/Tests.antt =====
-- Runs of the functions of ssh-uint.c, and the theorems at concrete values.
use osns.Prelude.{ℕ, ◌≡◌, refl, arith, some, List, [], ◌∷◌, ◌++◌, length}
use osns.Memory.{copy_to}
use osns.Wire.{octet, join_four, four}
use osns.Wire.{store_uint16, store_uint32, get_uint16, get_uint32}
use osns.Wire.RoundTrip.{get-store_uint16}

get_run : get_uint32 (0x01 ∷ 0x02 ∷ 0x03 ∷ 0xff ∷ 9 ∷ []) ≡ some 0x010203ff
unfolding get_uint32 join_four
get_run = refl

store_run : store_uint32 (9 ∷ 9 ∷ 9 ∷ 9 ∷ 7 ∷ []) 0x010203ff ≡ some (1 ∷ 2 ∷ 3 ∷ 0xff ∷ 7 ∷ [])
unfolding store_uint32 copy_to four octet
store_run = refl

get-store_uint16_example :
    (b : List ℕ) × (store_uint16 (0 ∷ 0 ∷ 7 ∷ []) 0xabcd ≡ some (b ++ (7 ∷ [])))
    × (length b ≡ 2)
    × (get_uint16 (b ++ (7 ∷ [])) ≡ some 0xabcd)
get-store_uint16_example = get-store_uint16 0xabcd (0 ∷ 0 ∷ []) (7 ∷ []) (omega arith) refl
