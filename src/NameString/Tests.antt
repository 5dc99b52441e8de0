-- ===== src/NameString/Tests.antt =====
-- Name strings at work.
use osns.Prelude.{ℕ, ◌≡◌, arith, some, List, [], ◌∷◌, ◌++◌}
use osns.NameString.{name_arg}
use osns.NameString.Laws.{named, write_read, write-read}

abbrev home : List ℕ
home = b'h' ∷ b'o' ∷ b'm' ∷ b'e' ∷ []

write-read_example :
    write_read (0 ∷ 0 ∷ 0 ∷ 0 ∷ 0 ∷ 7 ∷ []) 6 (name_arg (named home []))
    ≡ some (5, record { len = 4; ptr = some (home ++ (7 ∷ [])) })
write-read_example =
    write-read home [] (0 ∷ 0 ∷ 0 ∷ 0 ∷ 0 ∷ []) (7 ∷ []) 6 (omega arith) (omega arith)
