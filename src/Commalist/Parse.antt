-- ===== src/Commalist/Parse.antt =====
-- The calls that `parse_ssh_commalist` makes for a list of names.
use osns.Prelude.{ℕ, suc, ◌+◌, List, [], ◌∷◌, ◌++◌, length}
use osns.CString.Names.{join}
use osns.Commalist.{Call}

-- What is called: each name with a zero behind it and its length, and the last one with `more` bytes and
-- one byte more for each comma.
unfoldable pub expected : List ℕ → List (List ℕ) → List ℕ → ℕ → List Call
expected s [] rest more = record { entry = s ++ rest; len = length s + more } ∷ []
expected s (t ∷ ss) rest more =
    record { entry = s ++ (0 ∷ (join t ss ++ rest)); len = length s }
    ∷ expected t ss rest (suc more)
