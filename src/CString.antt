-- ===== src/CString.antt =====
-- What the C library's string functions do, as the sources use them. A C string is a buffer with a
-- zero in it; a search that leaves the buffer is `none`.
pub mod Names
pub mod Compare
use osns.Prelude.{ℕ, zero, suc, Bool, true, false, Option, none, some, List, [], ◌∷◌, ◌++◌, ◌>>=◌}
use osns.Prelude.{◌==◌, ◌&&◌, ◌||◌, if◌then◌else◌, ltb}

-- The bytes in front of the zero.
unfoldable pub text : List ℕ → Option (List ℕ)
text [] = none
text (b ∷ bs) = let rest = text bs in if b == 0 then some [] else (do t ← rest; some (b ∷ t))

-- Where `strchr` finds a byte: what is in front of it, and the buffer from there. NULL is `some none`.
unfoldable pub strchr : List ℕ → ℕ → Option (Option (List ℕ × List ℕ))
strchr [] c = none
strchr (b ∷ bs) c =
    let rest = strchr bs c in
    if b == c
    then some (some ([], b ∷ bs))
    else if b == 0
    then some none
    else (do r ← rest; some (do (front, found) ← r; some (b ∷ front, found)))

-- The same for `memchr`, with the number of bytes to look at.
unfoldable pub memchr : List ℕ → ℕ → ℕ → Option (Option (List ℕ × List ℕ))
memchr mem c zero = some none
memchr [] c (suc n) = none
memchr (b ∷ bs) c (suc n) =
    let rest = memchr bs c n in
    if b == c
    then some (some ([], b ∷ bs))
    else (do r ← rest; some (do (front, found) ← r; some (b ∷ front, found)))

unfoldable pub starts_with : List ℕ → List ℕ → Bool
starts_with [] hay = true
starts_with (x ∷ needle) [] = false
starts_with (x ∷ needle) (y ∷ hay) = (x == y) && starts_with needle hay

unfoldable pub contains : List ℕ → List ℕ → Bool
contains needle [] = starts_with needle []
contains needle (y ∷ hay) = starts_with needle (y ∷ hay) || contains needle hay

-- Whether `strstr` finds the text of the second string in that of the first.
unfoldable pub strstr : List ℕ → List ℕ → Option Bool
strstr hay needle = do h ← text hay; n ← text needle; some (contains n h)

-- The sign of a comparison: a number below, equal to or above 0.
pub data Sign : Type 0 where
  less : Sign
  same : Sign
  more : Sign

-- `strcmp`.
unfoldable pub strcmp : List ℕ → List ℕ → Option Sign
strcmp [] b = none
strcmp (x ∷ a) [] = none
strcmp (x ∷ a) (y ∷ b) =
    let rest = strcmp a b in
    if ltb x y then some less else if ltb y x then some more else if x == 0 then some same else rest
