-- ===== src/Commalist/Tests.antt =====
-- The theorems on lists of names at concrete lists.
use osns.Prelude.{ℕ, ◌≡◌, refl, arith, List, [], ◌∷◌, ◌++◌, some, true}
use osns.CString.Names.{IsName, join}
use osns.Commalist.{Commalist, Call, add_name_to_commalist, enametoolong, name_found_namelist}
use osns.Commalist.Add.{holding}
use osns.Commalist.Search.{name_found_namelist-join}

abbrev ab : List ℕ
ab = b'a' ∷ b'b' ∷ []

abbrev cd : List ℕ
cd = b'c' ∷ b'd' ∷ []

abbrev blank : List ℕ
blank = 0 ∷ 0 ∷ 0 ∷ []

name_found_namelist-join_example :
    name_found_namelist (holding (join ab (cd ∷ [])) [] 5) (cd ++ (0 ∷ [])) ≡ some true
unfolding osns.CString.Names.listed osns.Memory.same_bytes osns.Memory.bytes_at
    osns.Memory.read_bytes join
name_found_namelist-join_example =
    name_found_namelist-join (holding (join ab (cd ∷ [])) [] 5) ab cd (cd ∷ []) [] (ground arith)
      (ground arith) refl refl (omega arith)

abbrev call : List ℕ → ℕ → Call
call entry len = record { entry = entry; len = len }
