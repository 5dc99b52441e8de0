-- ===== src/CString/Names.antt =====
-- Lists of names that are separated by commas, and what the string functions find in them.
use osns.Prelude.{ℕ, ◌≡◌, ◌≢◌, refl, arith, ap, ◌∙◌}
use osns.Prelude.{Bool, false, some, none, List, [], ◌∷◌, ◌++◌, append_assoc}
use osns.Prelude.{◌||◌, All}
use osns.Memory.{same_bytes}
use osns.CString.{text, strchr, starts_with, contains}

-- A byte that may stand in a name: neither a comma nor the zero at the end.
abbrev pub IsNameByte : ℕ → Type 0
IsNameByte b = (b ≢ b',') × (b ≢ 0)

abbrev pub IsName : List ℕ → Type 0
IsName s = All IsNameByte s

-- The names one after another, each behind a comma, and a comma at the end.
unfoldable pub enclose : List (List ℕ) → List ℕ
enclose [] = b',' ∷ []
enclose (s ∷ ss) = b',' ∷ (s ++ enclose ss)

-- The names of a list that is not empty, with commas between them.
unfoldable pub join : List ℕ → List (List ℕ) → List ℕ
join s [] = s
join s (t ∷ ss) = s ++ (b',' ∷ join t ss)

unfoldable pub listed : List ℕ → List (List ℕ) → Bool
listed n [] = false
listed n (s ∷ ss) = same_bytes n s || listed n ss

pub enclose-join :
    (s : List ℕ) (ss : List (List ℕ)) → b',' ∷ (join s ss ++ (b',' ∷ [])) ≡ enclose (s ∷ ss)
unfolding join enclose
enclose-join s [] = refl
enclose-join s (t ∷ ss) =
    ap (λ l. b',' ∷ l)
      (append_assoc s (b',' ∷ join t ss) (b',' ∷ []) ∙ ap (λ l. s ++ l) (enclose-join t ss))

-- The text of a name in front of other text.
pub text-append :
    (s rest t : List ℕ) → IsName s → text rest ≡ some t → text (s ++ rest) ≡ some (s ++ t)
unfolding text
text-append [] rest t h e = e
text-append (x ∷ s) rest t (hx, hs) e = rw (text-append s rest t hs e) (ground (arith, hx))

pub text-enclose :
    (ss : List (List ℕ)) (rest : List ℕ)
    → All IsName ss
    → text (enclose ss ++ (0 ∷ rest)) ≡ some (enclose ss)
unfolding enclose text
text-enclose [] rest h = refl
text-enclose (s ∷ ss) rest (hs, h) = rw (
  append_assoc s (enclose ss) (0 ∷ rest),
  text-append s (enclose ss ++ (0 ∷ rest)) (enclose ss) hs (text-enclose ss rest h),
)

pub strchr-name :
    (s rest : List ℕ) → IsName s → strchr (s ++ (b',' ∷ rest)) b',' ≡ some (some (s, b',' ∷ rest))
unfolding strchr
strchr-name [] rest h = refl
strchr-name (x ∷ s) rest (hx, hs) = rw (strchr-name s rest hs) (ground (arith, hx))

pub strchr-zero : (s rest : List ℕ) → IsName s → strchr (s ++ (0 ∷ rest)) b',' ≡ some none
unfolding strchr
strchr-zero [] rest h = refl
strchr-zero (x ∷ s) rest (hx, hs) = rw (strchr-zero s rest hs) (ground (arith, hx))

-- A name with a comma behind it stands at the front of another only if they are the same.
pub starts_with-name :
    (n s rest : List ℕ)
    → IsName n
    → IsName s
    → starts_with (n ++ (b',' ∷ [])) (s ++ (b',' ∷ rest)) ≡ same_bytes n s
unfolding starts_with same_bytes
starts_with-name [] [] rest hn hs = refl
starts_with-name [] (y ∷ s) rest hn (hy, hs) = ground (arith, hy)
starts_with-name (x ∷ n) [] rest (hx, hn) hs = ground (arith, hx)
starts_with-name (x ∷ n) (y ∷ s) rest (hx, hn) (hy, hs) = rw (starts_with-name n s rest hn hs)

-- What starts with a comma is not found inside a name.
pub contains-skip :
    (needle s hay : List ℕ)
    → IsName s
    → contains (b',' ∷ needle) (s ++ hay) ≡ contains (b',' ∷ needle) hay
unfolding contains starts_with
contains-skip needle [] hay h = refl
contains-skip needle (x ∷ s) hay (hx, hs) = rw (contains-skip needle s hay hs) (ground (arith, hx))

enclose-head : (ss : List (List ℕ)) → (rest : List ℕ) × (enclose ss ≡ b',' ∷ rest)
unfolding enclose
enclose-head [] = ([], refl)
enclose-head (s ∷ ss) = (s ++ enclose ss, refl)

pub contains-enclose :
    (n : List ℕ) (ss : List (List ℕ))
    → IsName n
    → All IsName ss
    → contains (b',' ∷ (n ++ (b',' ∷ []))) (enclose ss) ≡ listed n ss
unfolding contains starts_with enclose listed
contains-enclose [] [] hn h = refl
contains-enclose (x ∷ n) [] hn h = refl
contains-enclose n (s ∷ ss) hn (hs, h) =
    let (rest, e) = enclose-head ss in
    rw (
      contains-skip (n ++ (b',' ∷ [])) s (enclose ss) hs,
      contains-enclose n ss hn h,
      e,
      starts_with-name n s rest hn hs,
    )
