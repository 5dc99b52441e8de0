-- ===== src/SftpAttr/Wired.antt =====
-- The order in which the attributes stand on the wire, and the functions of
-- src/lib/sftp/rw-attr-generic.c that go by it: parse_attributes_v03 of init-attr-v03.c, and the reading,
-- writing and measuring that hand it a callback.
use osns.Prelude.{
  ◌&&◌, ℕ, ◌+◌, Bool, true, false, Option, some, ◌>>=◌, if◌then◌else◌, ◌≡◌, refl, ap, ◌∙◌,
}
use osns.AttrBuffer.{AttrBuffer}
use osns.SftpAttr.{
  Stat, Mapping, Attr, size, uidgid, permissions, acmodtime, extended, Valid, both, clear, w_valid,
  r_valid, maxlength, write_attr, read_attr,
}

-- `todo` of the result, and the buffer and fields that a callback works on. The other numbers of the
-- result, done, ignored and stat_mask, do not change what is read or written.
pub record Work (S : Type 0) : Type 0 where
  pub todo : Valid
  pub on : S

module _ {S : Type 0} (callback : Attr → S → Option S) where
  -- `parse_attribute`: `todo` is cleared for the attribute.
  unfoldable pub parse_attribute : Attr → Work S → Option (Work S)
  unfolding clear
  parse_attribute a r = do s ← callback a r.on; some (record { todo = clear a r.todo; on = s })

  unfoldable pub parse_if : Bool → Attr → Work S → Option (Work S)
  unfolding parse_attribute
  parse_if b a r = if b then parse_attribute a r else some r

  unfoldable pub parse_attributes_v03 : Work S → Option (Work S)
  unfolding parse_if
  parse_attributes_v03 r = do
    r1 ← parse_if r.todo.has_size size r
    r2 ← parse_if r1.todo.has_uidgid uidgid r1
    r3 ← parse_if r2.todo.has_permissions permissions r2
    r4 ← parse_if r3.todo.has_acmodtime acmodtime r3
    parse_if r4.todo.has_extended extended r4

  -- `valid & supported`, and then the attributes one by one: a mask for which no rows are kept.
  unfoldable pub parse_attributes_generic : Valid → Valid → S → Option (Work S)
  unfolding parse_attributes_v03 both
  parse_attributes_generic supported valid s =
      parse_attributes_v03 (record { todo = both valid supported; on = s })

unfoldable pub write_attributes_generic :
    Mapping → Stat → Valid → AttrBuffer → Option (Work AttrBuffer)
unfolding parse_attributes_generic
write_attributes_generic m stat valid ab =
    parse_attributes_generic (write_attr m stat) w_valid valid ab

unfoldable pub read_attributes_generic :
    Mapping → Stat → Valid → AttrBuffer → Option (Work (AttrBuffer × Stat))
unfolding parse_attributes_generic
read_attributes_generic m stat valid ab =
    parse_attributes_generic (read_attr m) r_valid valid (ab, stat)

-- The result: the lengths of the attributes that would be written.
unfoldable pub get_size_buffer_write_attributes : Valid → Option (Work ℕ)
unfolding parse_attributes_generic
get_size_buffer_write_attributes valid =
    parse_attributes_generic (λ a len. some (len + maxlength a)) w_valid valid 0

-- Every attribute but the extensions.
abbrev pub is_core : Attr → Bool
is_core size = true
is_core uidgid = true
is_core permissions = true
is_core acmodtime = true
is_core extended = false

-- What `todo` is behind an attribute, and which of its bits are as before.
abbrev pub behind : Bool → Attr → Valid → Valid
behind b a t = if b then clear a t else t

pub size-keeps :
    (b : Bool) (t : Valid)
    → ((behind b size t).has_uidgid ≡ t.has_uidgid)
      × ((behind b size t).has_permissions ≡ t.has_permissions)
      × ((behind b size t).has_acmodtime ≡ t.has_acmodtime)
      × ((behind b size t).has_extended ≡ t.has_extended)
unfolding clear
size-keeps true t = (refl, refl, refl, refl)
size-keeps false t = (refl, refl, refl, refl)

pub uidgid-keeps :
    (b : Bool) (t : Valid)
    → ((behind b uidgid t).has_permissions ≡ t.has_permissions)
      × ((behind b uidgid t).has_acmodtime ≡ t.has_acmodtime)
      × ((behind b uidgid t).has_extended ≡ t.has_extended)
unfolding clear
uidgid-keeps true t = (refl, refl, refl)
uidgid-keeps false t = (refl, refl, refl)

pub permissions-keeps :
    (b : Bool) (t : Valid)
    → ((behind b permissions t).has_acmodtime ≡ t.has_acmodtime)
      × ((behind b permissions t).has_extended ≡ t.has_extended)
unfolding clear
permissions-keeps true t = (refl, refl)
permissions-keeps false t = (refl, refl)

pub acmodtime-keeps : (b : Bool) (t : Valid) → (behind b acmodtime t).has_extended ≡ t.has_extended
unfolding clear
acmodtime-keeps true t = refl
acmodtime-keeps false t = refl

parse_if-step :
    {S : Type 0} (callback : Attr → S → Option S) (b : Bool) (a : Attr) (t : Valid) (s s' : S)
    → (if b then callback a s else some s) ≡ some s'
    → parse_if callback b a (record { todo = t; on = s })
      ≡ some (record { todo = behind b a t; on = s' })
unfolding parse_if parse_attribute
parse_if-step callback true a t s s' e = rw e refl
parse_if-step callback false a t s s' e = ap (λ o. o >>= λ u. some (record { todo = t; on = u })) e

-- A mask without extensions is gone through in the order of the wire, when the callback turns one state
-- into the next.
pub parse_attributes_v03-chain :
    {S : Type 0} (callback : Attr → S → Option S) (v : Valid) (s0 s1 s2 s3 s4 : S)
    → v.has_extended ≡ false
    → (if v.has_size then callback size s0 else some s0) ≡ some s1
    → (if v.has_uidgid then callback uidgid s1 else some s1) ≡ some s2
    → (if v.has_permissions then callback permissions s2 else some s2) ≡ some s3
    → (if v.has_acmodtime then callback acmodtime s3 else some s3) ≡ some s4
    → (t : Valid) × (parse_attributes_v03 callback (record { todo = v; on = s0 })
        ≡ some (record { todo = t; on = s4 }))
unfolding parse_attributes_v03
parse_attributes_v03-chain callback v s0 s1 s2 s3 s4 no_ext e1 e2 e3 e4 =
    let t1 = behind (v.has_size) size v in
    let (k1u, k1p, k1a, k1e) = size-keeps (v.has_size) v in
    let t2 = behind (t1.has_uidgid) uidgid t1 in
    let (k2p, k2a, k2e) = uidgid-keeps (t1.has_uidgid) t1 in
    let t3 = behind (t2.has_permissions) permissions t2 in
    let (k3a, k3e) = permissions-keeps (t2.has_permissions) t2 in
    let t4 = behind (t3.has_acmodtime) acmodtime t3 in
    let k4e = acmodtime-keeps (t3.has_acmodtime) t3 in
    let step1 = parse_if-step callback (v.has_size) size v s0 s1 e1 in
    let step2 = parse_if-step callback (t1.has_uidgid) uidgid t1 s1 s2 (rw k1u e2) in
    let step3 =
      parse_if-step callback (t2.has_permissions) permissions t2 s2 s3 (rw (k2p ∙ k1p) e3) in
    let step4 =
      parse_if-step callback (t3.has_acmodtime) acmodtime t3 s3 s4 (rw (k3a ∙ k2a ∙ k1a) e4) in
    let none_left : t4.has_extended ≡ false = k4e ∙ k3e ∙ k2e ∙ k1e ∙ no_ext in
    let step5 = parse_if-step callback (t4.has_extended) extended t4 s4 s4 (rw none_left refl) in
    (behind (t4.has_extended) extended t4, rw (step1, step2, step3, step4) step5)

pub and_true : (b c : Bool) → c ≡ true → (b && c) ≡ b
and_true true c e = e
and_true false c e = refl

pub and_false : (b : Bool) → (b && false) ≡ false
and_false true = refl
and_false false = refl

-- The same for the bits of a mask that are asked for, with a callback that has none for the extensions.
pub core_chain :
    {S : Type 0} (callback : Attr → S → Option S) (supported v : Valid)
    → supported.has_size ≡ true
    → supported.has_uidgid ≡ true
    → supported.has_permissions ≡ true
    → supported.has_acmodtime ≡ true
    → (v.has_extended && supported.has_extended) ≡ false
    → (s0 s1 s2 s3 s4 : S) → (if v.has_size then callback size s0 else some s0) ≡ some s1
    → (if v.has_uidgid then callback uidgid s1 else some s1) ≡ some s2
    → (if v.has_permissions then callback permissions s2 else some s2) ≡ some s3
    → (if v.has_acmodtime then callback acmodtime s3 else some s3) ≡ some s4
    → (t : Valid) × (parse_attributes_generic callback supported v s0
        ≡ some (record { todo = t; on = s4 }))
unfolding parse_attributes_generic both
core_chain callback supported v c1 c2 c3 c4 c5 s0 s1 s2 s3 s4 e1 e2 e3 e4 =
    parse_attributes_v03-chain callback (both v supported) s0 s1 s2 s3 s4 c5
      (rw (and_true (v.has_size) (supported.has_size) c1) e1)
      (rw (and_true (v.has_uidgid) (supported.has_uidgid) c2) e2)
      (rw (and_true (v.has_permissions) (supported.has_permissions) c3) e3)
      (rw (and_true (v.has_acmodtime) (supported.has_acmodtime) c4) e4)
