-- ===== src/Commalist/Add.antt =====
-- `add_name_to_commalist` keeps a list of names.
use osns.Prelude.{
  ℕ, ◌+◌, ◌^◌, ◌≡◌, ◌<◌, ◌≤◌, refl, arith, ap, ◌∙◌, sym, false, Option, some, List, [], ◌∷◌, ◌++◌,
  append_assoc, length, ltb, length-append, ◌==◌,
}
use osns.CString.Names.{join}
use osns.SshString.{u32}
use osns.Memory.{copy_at-append}
use osns.Commalist.{Commalist, add_name_to_commalist, enametoolong, write_at, append_name}

-- A list that holds `xs`, with `room` behind it.
abbrev pub holding : List ℕ → List ℕ → ℕ → Commalist
holding xs room size = record { list = some (xs ++ room); len = length xs; size = size }

write_at-holding :
    (xs bytes old room : List ℕ) (len size : ℕ)
    → length old ≡ length bytes
    → write_at
        (record { list = some (xs ++ (old ++ room)); len = len; size = size })
        (length xs)
        bytes
      ≡ some (record { list = some (xs ++ (bytes ++ room)); len = len; size = size })
unfolding write_at
write_at-holding xs bytes old room len size h = rw (copy_at-append xs bytes old room h)

-- A name that fits is put behind the list, with a comma if there is something in front. It fits if the
-- size has room for a byte more than the two together.
add_name-fits :
    (name xs old room : List ℕ) (c size : ℕ) (error : Option ℕ)
    → 0 < length xs
    → length old ≡ length name
    → length xs + length name + 1 ≤ size
    → size < 2 ^ 32
    → add_name_to_commalist name (some (holding xs (c ∷ (old ++ room)) size)) error
      ≡ some (length name + 1, some (holding (xs ++ (b',' ∷ name)) room size), error)
unfolding add_name_to_commalist append_name
add_name-fits name xs old room c size error some_bytes same fits small =
    let short : ltb size (u32 (u32 (length xs + length name) + 1)) ≡ false = ground arith in
    let full : (length xs == 0) ≡ false = ground arith in
    let behind = length-append xs (b',' ∷ []) in
    let next : u32 (length xs + 1) ≡ length (xs ++ (b',' ∷ [])) = omega arith in
    let comma = write_at-holding xs (b',' ∷ []) (c ∷ []) (old ++ room) (length xs) size refl in
    let body = write_at-holding (xs ++ (b',' ∷ [])) name old room (length xs) size same in
    rw (short, full, comma, next, sym (append_assoc xs (b',' ∷ []) (old ++ room)), body)
      (ap some (
        ground (
          arith,
          append_assoc xs (b',' ∷ []) (name ++ room),
          append_assoc xs (b',' ∷ name) room,
          length-append xs (b',' ∷ name),
        )))

join-add :
    (s name : List ℕ) (ss : List (List ℕ)) → join s ss ++ (b',' ∷ name) ≡ join s (ss ++ (name ∷ []))
unfolding join
join-add s name [] = refl
join-add s name (t ∷ ss) =
    append_assoc s (b',' ∷ join t ss) (b',' ∷ name) ∙ ap (λ l. s ++ (b',' ∷ l)) (join-add t name ss)

-- A list of names that is not empty gets one more name at its end, if the size of its buffer, below 2
-- ^ 32, is larger than the lengths of the list and the name together.
add_name-join :
    (s name old room : List ℕ) (ss : List (List ℕ)) (size : ℕ) (error : Option ℕ)
    → 0 < length (join s ss)
    → length old ≡ length name + 1
    → length (join s ss) + length name + 1 ≤ size
    → size < 2 ^ 32
    → add_name_to_commalist name (some (holding (join s ss) (old ++ room) size)) error
      ≡ some (length name + 1, some (holding (join s (ss ++ (name ∷ []))) room size), error)
add_name-join s name [] room ss size error some_bytes same fits small = absurd (omega arith)
add_name-join s name (c ∷ old) room ss size error some_bytes same fits small =
    rw (← join-add s name ss)
      (add_name-fits name (join s ss) old room c size error some_bytes (omega arith) fits small)

-- A name that does not fit, while the sum of the lengths does not wrap, leaves the list as it is, with
-- 0 and ENAMETOOLONG.
pub add_name-long :
    (name : List ℕ) (clist : Commalist) (e : ℕ)
    → clist.len + length name + 1 < 2 ^ 32
    → clist.size < clist.len + length name + 1
    → add_name_to_commalist name (some clist) (some e) ≡ some (0, some clist, some enametoolong)
unfolding add_name_to_commalist
add_name-long name clist e small long = ground arith
