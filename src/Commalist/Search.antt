-- ===== src/Commalist/Search.antt =====
-- The search for a name in a list.
use osns.Prelude.{
  ℕ, ◌≡◌, ◌<◌, refl, arith, ap, List, [], ◌∷◌, ◌++◌, some, true, All, append_assoc, length, ltb,
  lt→ltb, append-nil,
}
use osns.CString.{text, strstr}
use osns.CString.Names.{IsName, join, enclose-join, listed, text-append, contains-enclose}
use osns.Memory.{bytes_at}
use osns.Commalist.{Commalist, string_found_commalist, name_found_namelist}

text-join :
    (s : List ℕ) (ss : List (List ℕ)) (rest t : List ℕ)
    → All IsName (s ∷ ss)
    → text rest ≡ some t
    → text (join s ss ++ rest) ≡ some (join s ss ++ t)
unfolding join text
text-join s [] rest t (hs, h) e = text-append s rest t hs e
text-join s (n ∷ ss) rest t (hs, h) e =
    rw (append_assoc s (b',' ∷ join n ss) rest, append_assoc s (b',' ∷ join n ss) t)
      (text-append s ((b',' ∷ join n ss) ++ rest) ((b',' ∷ join n ss) ++ t) hs
        (rw (text-join n ss rest t h e)))

pub string_found_commalist-join :
    (s n : List ℕ) (ss : List (List ℕ)) (rest rest' : List ℕ)
    → All IsName (s ∷ ss)
    → IsName n
    → string_found_commalist (join s ss ++ (0 ∷ rest)) (n ++ (0 ∷ rest')) ≡ some (listed n (s ∷ ss))
unfolding string_found_commalist strstr text
string_found_commalist-join s n ss rest rest' h hn =
    let zero_list = text-join s ss (0 ∷ rest) [] h refl in
    let zero_name = text-append n (0 ∷ rest') [] hn refl in
    let comma_list = text-join s ss (b',' ∷ 0 ∷ []) (b',' ∷ []) h refl in
    let comma_name = text-append n (b',' ∷ 0 ∷ []) (b',' ∷ []) hn refl in
    rw
      (
        zero_list,
        zero_name,
        append-nil (join s ss),
        append-nil n,
        comma_list,
        comma_name,
        enclose-join s ss,
      )
      (ap some (contains-enclose n (s ∷ ss) hn h))

-- The same for a list with a length. The name's length is that of its text.
pub name_found_namelist-join :
    (clist : Commalist) (s n : List ℕ) (ss : List (List ℕ)) (rest : List ℕ)
    → All IsName (s ∷ ss)
    → IsName n
    → bytes_at clist.list clist.len ≡ some (join s ss)
    → clist.len ≡ length (join s ss)
    → 0 < length (join s ss)
    → name_found_namelist clist (n ++ (0 ∷ rest)) ≡ some (listed n (s ∷ ss))
unfolding name_found_namelist
name_found_namelist-join clist s n ss rest h hn e len some_bytes =
    let full : ltb 0 (clist.len) ≡ true = lt→ltb _ _ (omega arith) in
    rw (full, e) (string_found_commalist-join s n ss [] rest h hn)
