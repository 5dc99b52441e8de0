-- ===== src/SftpAttr/Cached.antt =====
-- The loop of parse_attributes_generic in src/lib/sftp/rw-attr-generic.c over the rows that were kept for a
-- mask, beside parse_attributes_v03.
use osns.Prelude.{
  Bool, true, false, Option, none, some, List, [], ◌∷◌, ◌++◌, ◌>>=◌, if◌then◌else◌, ◌≡◌, refl, ap,
  sym, ◌∙◌, append-nil, append_assoc,
}
use osns.SftpAttr.{Attr, size, uidgid, permissions, acmodtime, extended, Valid, clear}
use osns.SftpAttr.Wired.{Work, behind, parse_attribute, parse_if, parse_attributes_v03}

-- The rows that a callback notes for a mask, in their order.
abbrev pub row_if : Bool → Attr → List Attr
row_if b a = if b then a ∷ [] else []

unfoldable pub rows_of : Valid → List Attr
rows_of v =
    row_if v.has_size size
    ++ (row_if v.has_uidgid uidgid
        ++ (row_if v.has_permissions permissions
            ++ (row_if v.has_acmodtime acmodtime ++ row_if v.has_extended extended)))

module _ {S : Type 0} (callback : Attr → S → Option S) where
  -- `parse_attribute` for each index in `hcb->cb`.
  unfoldable pub parse_rows : List Attr → Work S → Option (Work S)
  parse_rows [] r = some r
  parse_rows (a ∷ rows) r = do r' ← parse_attribute callback a r; parse_rows rows r'

  after : Valid → Option S → (Work S → Option (Work S)) → Option (Work S)
  after t o k = o >>= λ s. k (record { todo = t; on = s })

  take_on :
      (t : Valid) (o : Option S) (k : Work S → Option (Work S))
      → ((do s ← o; some (record { todo = t; on = s })) >>= k) ≡ after t o k
  unfolding after
  take_on t none k = refl
  take_on t (some s) k = refl

  tried : Bool → Attr → S → Option S
  tried b a s = if b then callback a s else some s

  parse_if-after :
      (b : Bool) (a : Attr) (t : Valid) (s : S) (k : Work S → Option (Work S))
      → (parse_if callback b a (record { todo = t; on = s }) >>= k)
        ≡ after (behind b a t) (tried b a s) k
  unfolding parse_if parse_attribute after tried
  parse_if-after true a t s k = take_on (clear a t) (callback a s) k
  parse_if-after false a t s k = refl

  parse_rows-after :
      (b : Bool) (a : Attr) (rest : List Attr) (t : Valid) (s : S)
      → parse_rows (row_if b a ++ rest) (record { todo = t; on = s })
        ≡ after (behind b a t) (tried b a s) (parse_rows rest)
  unfolding parse_rows parse_attribute after tried
  parse_rows-after true a rest t s = take_on (clear a t) (callback a s) (parse_rows rest)
  parse_rows-after false a rest t s = refl

  after_same :
      (t : Valid) (rest : List Attr) (k : Work S → Option (Work S))
      → ((u : S) → k (record { todo = t; on = u }) ≡ parse_rows rest (record { todo = t; on = u }))
      → (o : Option S) → after t o k ≡ after t o (parse_rows rest)
  unfolding after
  after_same t rest k same none = refl
  after_same t rest k same (some u) = same u

  -- A step of both that goes on in the same way.
  same_step :
      (b : Bool) (a : Attr) (rest : List Attr) (t : Valid) (s : S) (k : Work S → Option (Work S))
      → ((u : S)
          → k (record { todo = behind b a t; on = u })
            ≡ parse_rows rest (record { todo = behind b a t; on = u }))
      → (parse_if callback b a (record { todo = t; on = s }) >>= k)
        ≡ parse_rows (row_if b a ++ rest) (record { todo = t; on = s })
  same_step b a rest t s k same =
      parse_if-after b a t s k
      ∙ after_same (behind b a t) rest k same (tried b a s)
      ∙ sym (parse_rows-after b a rest t s)

  as_rows :
      {rows rows' : List Attr} (r : Work S) → rows ≡ rows' → parse_rows rows r ≡ parse_rows rows' r
  as_rows r same = ap (λ rows. parse_rows rows r) same

  and_nothing : (o : Option (Work S)) → o ≡ (o >>= λ r. some r)
  and_nothing none = refl
  and_nothing (some r) = refl

  last_step :
      (b : Bool) (a : Attr) (r : Work S) → parse_if callback b a r ≡ parse_rows (row_if b a) r
  unfolding parse_if parse_rows
  last_step true a r = and_nothing (parse_attribute callback a r)
  last_step false a r = refl

abbrev rows_from_acmodtime : Valid → List Attr
rows_from_acmodtime v = row_if v.has_acmodtime acmodtime ++ row_if v.has_extended extended

abbrev rows_from_permissions : Valid → List Attr
rows_from_permissions v = row_if v.has_permissions permissions ++ rows_from_acmodtime v

abbrev rows_from_uidgid : Valid → List Attr
rows_from_uidgid v = row_if v.has_uidgid uidgid ++ rows_from_permissions v

behind_acmodtime :
    (b : Bool) (t : Valid)
    → row_if (behind b acmodtime t).has_extended extended ≡ row_if t.has_extended extended
unfolding clear
behind_acmodtime true t = refl
behind_acmodtime false t = refl

behind_permissions :
    (b : Bool) (t : Valid) → rows_from_acmodtime (behind b permissions t) ≡ rows_from_acmodtime t
unfolding clear
behind_permissions true t = refl
behind_permissions false t = refl

behind_uidgid :
    (b : Bool) (t : Valid) → rows_from_permissions (behind b uidgid t) ≡ rows_from_permissions t
unfolding clear
behind_uidgid true t = refl
behind_uidgid false t = refl

behind_size : (b : Bool) (t : Valid) → rows_from_uidgid (behind b size t) ≡ rows_from_uidgid t
unfolding clear
behind_size true t = refl
behind_size false t = refl

module _ {S : Type 0} (callback : Attr → S → Option S) where
  from_acmodtime : Work S → Option (Work S)
  from_acmodtime r = do
    r' ← parse_if callback r.todo.has_acmodtime acmodtime r
    parse_if callback r'.todo.has_extended extended r'

  from_permissions : Work S → Option (Work S)
  unfolding from_acmodtime
  from_permissions r = do
    r' ← parse_if callback r.todo.has_permissions permissions r
    from_acmodtime r'

  from_uidgid : Work S → Option (Work S)
  unfolding from_permissions
  from_uidgid r = do r' ← parse_if callback r.todo.has_uidgid uidgid r; from_permissions r'

  from_acmodtime-rows :
      (t : Valid) (s : S)
      → from_acmodtime (record { todo = t; on = s })
        ≡ parse_rows callback (rows_from_acmodtime t) (record { todo = t; on = s })
  unfolding from_acmodtime
  from_acmodtime-rows t s = same_step callback (t.has_acmodtime) acmodtime _ t s _ (λ u.
      last_step callback _ extended _
      ∙ as_rows callback (record { todo = behind (t.has_acmodtime) acmodtime t; on = u })
          (behind_acmodtime (t.has_acmodtime) t))

  from_permissions-rows :
      (t : Valid) (s : S)
      → from_permissions (record { todo = t; on = s })
        ≡ parse_rows callback (rows_from_permissions t) (record { todo = t; on = s })
  unfolding from_permissions
  from_permissions-rows t s = same_step callback (t.has_permissions) permissions _ t s _ (λ u.
      from_acmodtime-rows _ u
      ∙ as_rows callback (record { todo = behind (t.has_permissions) permissions t; on = u })
          (behind_permissions (t.has_permissions) t))

  from_uidgid-rows :
      (t : Valid) (s : S)
      → from_uidgid (record { todo = t; on = s })
        ≡ parse_rows callback (rows_from_uidgid t) (record { todo = t; on = s })
  unfolding from_uidgid
  from_uidgid-rows t s = same_step callback (t.has_uidgid) uidgid _ t s _ (λ u.
      from_permissions-rows _ u
      ∙ as_rows callback (record { todo = behind (t.has_uidgid) uidgid t; on = u })
          (behind_uidgid (t.has_uidgid) t))

-- The loop over the rows that were kept for a mask does what the tests of its bits in turn do, with any
-- callback and from any state.
pub parse_rows-parse_attributes_v03 :
    {S : Type 0} (callback : Attr → S → Option S) (v : Valid) (s : S)
    → parse_rows callback (rows_of v) (record { todo = v; on = s })
      ≡ parse_attributes_v03 callback (record { todo = v; on = s })
unfolding parse_attributes_v03 rows_of from_acmodtime from_permissions from_uidgid
parse_rows-parse_attributes_v03 callback v s = sym (
    same_step callback (v.has_size) size _ v s _ (λ u.
      from_uidgid-rows callback _ u
      ∙ as_rows callback (record { todo = behind (v.has_size) size v; on = u })
          (behind_size (v.has_size) v)))

-- What the callbacks of `get_size_buffer_write_attributes` and `read_attributes_generic` do with `hlp->cb`.
abbrev pub note_row : Attr → List Attr → Option (List Attr)
note_row a noted = some (noted ++ (a ∷ []))

noted_rows :
    (rows noted : List Attr) (t : Valid)
    → (u : Valid) × (parse_rows note_row rows (record { todo = t; on = noted })
        ≡ some (record { todo = u; on = noted ++ rows }))
unfolding parse_rows parse_attribute
noted_rows [] noted t = (t, ap (λ l. some (record { todo = t; on = l })) (sym (append-nil noted)))
noted_rows (a ∷ rows) noted t =
    let (u, e) = noted_rows rows (noted ++ (a ∷ [])) (clear a t) in
    (u, e ∙ ap (λ l. some (record { todo = u; on = l })) (append_assoc noted (a ∷ []) rows))

-- The rows that are noted while a mask is gone through do for any callback, from any state, what going
-- through the mask again would do.
pub note-replay :
    {S : Type 0} (callback : Attr → S → Option S) (v : Valid) (s : S)
    → (rows : List Attr) × (t : Valid) × (parse_attributes_v03 note_row
          (record { todo = v; on = [] })
        ≡ some (record { todo = t; on = rows }))
      × (parse_rows callback rows (record { todo = v; on = s })
          ≡ parse_attributes_v03 callback (record { todo = v; on = s }))
note-replay callback v s =
    let (t, noted) = noted_rows (rows_of v) [] v in
    (
      rows_of v,
      t,
      sym (parse_rows-parse_attributes_v03 note_row v []) ∙ noted,
      parse_rows-parse_attributes_v03 callback v s,
    )
