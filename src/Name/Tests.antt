-- ===== src/Name/Tests.antt =====
-- Names at work.
use osns.Prelude.{◌≡◌, refl, arith, some, List, [], ◌∷◌, ◌++◌, ◌>>=◌, ℕ}
use osns.CString.{Sign, less, same}
use osns.CString.Compare.{compare_text, front, behind}
use osns.Name.{
  calculate_nameindex, compare_name, chars_arg, letter, index_of_buffer, calculate_nameindex_hlp,
}
use osns.Name.Index.{unnumbered}
use osns.Name.Compare.{compare_name-text}

abbrev index_file : List ℕ
index_file = b'9' ∷ b'.' ∷ b'i' ∷ b'n' ∷ b'd' ∷ b'e' ∷ b'x' ∷ []

abbrev inode_file : List ℕ
inode_file = b'9' ∷ b'.' ∷ b'i' ∷ b'n' ∷ b'o' ∷ b'd' ∷ b'e' ∷ []

compare_name-text_example :
    (do
      a ← calculate_nameindex (unnumbered index_file (0 ∷ []))
      compare_name a (chars_arg (inode_file ++ (0 ∷ []))))
    ≡ some (compare_text index_file inode_file)
unfolding letter front behind
compare_name-text_example =
    compare_name-text index_file inode_file [] []
      (
        (omega arith, omega arith),
        (
          (omega arith, omega arith),
          (
            (omega arith, omega arith),
            (
              (omega arith, omega arith),
              (
                (omega arith, omega arith),
                ((omega arith, omega arith), ((omega arith, omega arith), tt)),
              ),
            ),
          ),
        ),
      )
      (
        (omega arith, omega arith),
        (
          (omega arith, omega arith),
          (
            (omega arith, omega arith),
            (
              (omega arith, omega arith),
              (
                (omega arith, omega arith),
                ((omega arith, omega arith), ((omega arith, omega arith), tt)),
              ),
            ),
          ),
        ),
      )
      (omega arith) (omega arith)

-- A byte above 123 is no digit: "a1|" and "a2" have the same number.
collision :
    (do
      a ← calculate_nameindex (unnumbered (b'a' ∷ b'1' ∷ b'|' ∷ []) (0 ∷ []))
      compare_name a (chars_arg (b'a' ∷ b'2' ∷ 0 ∷ [])))
    ≡ some same
unfolding compare_name calculate_nameindex osns.Name.compare_names osns.CString.text
    osns.Memory.bytes_at osns.Memory.read_bytes osns.Memory.copy_to index_of_buffer
    calculate_nameindex_hlp letter
collision = refl
