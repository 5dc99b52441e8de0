-- ===== src/SftpAttr/Write.antt =====
-- The bytes of attributes, and the writers of src/lib/sftp/attr/write-attr-v03.c.
use osns.Prelude.{
  ℕ, ◌+◌, ◌%◌, ◌^◌, ◌≤◌, ◌<◌, ◌≡◌, refl, ap, sym, ◌∙◌, arith, Bool, true, false, some, List, [],
  ◌++◌, ◌>>=◌, if◌then◌else◌, length, length-append, length-take, length-drop, take, drop,
  take-append-drop, drop-add, append_assoc, append-nil, bit_or,
}
use osns.Wire.{four, eight}
use osns.SshString.{u32}
use osns.AttrBuffer.{AttrBuffer, ab_write, put, write_uint32, write_uint64}
use osns.AttrBuffer.RoundTrip.{placed, put-placed}
use osns.SftpAttr.{
  Stat, Mapping, Attr, size, uidgid, permissions, acmodtime, extended, Valid, both, w_valid,
  write_attr, get_type_system_stat, get_mode_system_stat,
}
use osns.SftpAttr.Wired.{
  is_core, core_chain, and_false, parse_attributes_generic, write_attributes_generic,
}

-- The type and the permissions in one.
abbrev pub sent_mode : Stat → ℕ
sent_mode stat = bit_or (get_type_system_stat stat) (get_mode_system_stat stat % 512)

unfoldable pub image : Mapping → Stat → Attr → List ℕ
image m stat size = eight stat.size
image m stat uidgid = four (m.get_user_l2p stat.uid) ++ four (m.get_group_l2p stat.gid)
image m stat permissions = four (sent_mode stat)
image m stat acmodtime = four (u32 stat.atime.sec) ++ four (u32 stat.mtime.sec)
image m stat extended = []

abbrev pub image_if : Mapping → Stat → Bool → Attr → List ℕ
image_if m stat b a = if b then image m stat a else []

-- The attributes of a mask one after another.
unfoldable pub wired : Mapping → Stat → Valid → List ℕ
wired m stat v =
    image_if m stat v.has_size size
    ++ (image_if m stat v.has_uidgid uidgid
        ++ (image_if m stat v.has_permissions permissions
            ++ image_if m stat v.has_acmodtime acmodtime))

pub put-back :
    (ab : AttrBuffer) (front xs back : List ℕ)
    → ab.ops ≡ ab_write
    → length xs ≤ length back
    → length front + length back < 2 ^ 32
    → put (placed ab front back) xs ≡ some (placed ab (front ++ xs) (drop (length xs) back))
put-back ab front xs back mode room small =
    let n = length xs in
    let cut = take-append-drop n back in
    ap (λ t. put (placed ab front t) xs) (sym cut)
    ∙ put-placed ab front xs (take n back) (drop n back) mode (length-take n back room)
        (omega (arith, length-append xs (drop n back), length-drop n back, small))

two_puts :
    (ab : AttrBuffer) (front xs ys back : List ℕ)
    → ab.ops ≡ ab_write
    → length (xs ++ ys) ≤ length back
    → length front + length back < 2 ^ 32
    → (do ab' ← put (placed ab front back) xs; put ab' ys)
      ≡ some (placed ab (front ++ (xs ++ ys)) (drop (length (xs ++ ys)) back))
two_puts ab front xs ys back mode room small =
    let lens = length-append xs ys in
    let back' = drop (length xs) back in
    let len' = length-drop (length xs) back in
    let step1 = put-back ab front xs back mode (omega arith) small in
    let step2 =
      put-back ab (front ++ xs) ys back' mode (omega arith)
        (omega (arith, length-append front xs)) in
    rw (step1, step2, lens, drop-add (length xs) (length ys) back, append_assoc front xs ys) refl

-- A writer puts the bytes of its attribute at the position, and moves behind them.
pub write_attr-image :
    (m : Mapping) (stat : Stat) (a : Attr) (ab : AttrBuffer) (front back : List ℕ)
    → is_core a ≡ true
    → ab.ops ≡ ab_write
    → length (image m stat a) ≤ length back
    → length front + length back < 2 ^ 32
    → write_attr m stat a (placed ab front back)
      ≡ some (placed ab (front ++ image m stat a) (drop (length (image m stat a)) back))
unfolding write_attr image write_uint32 write_uint64
write_attr-image m stat size ab front back core mode room small =
    put-back ab front (eight (stat.size)) back mode room small
write_attr-image m stat uidgid ab front back core mode room small =
    two_puts ab front _ _ back mode room small
write_attr-image m stat permissions ab front back core mode room small =
    put-back ab front _ back mode room small
write_attr-image m stat acmodtime ab front back core mode room small =
    two_puts ab front _ _ back mode room small
write_attr-image m stat extended ab front back core mode room small = cc

image_if-step :
    (m : Mapping) (stat : Stat) (b : Bool) (a : Attr) (ab : AttrBuffer) (front back : List ℕ)
    → is_core a ≡ true
    → ab.ops ≡ ab_write
    → length (image_if m stat b a) ≤ length back
    → length front + length back < 2 ^ 32
    → (if b then write_attr m stat a (placed ab front back) else some (placed ab front back))
      ≡ some (placed ab (front ++ image_if m stat b a) (drop (length (image_if m stat b a)) back))
image_if-step m stat true a ab front back core mode room small =
    write_attr-image m stat a ab front back core mode room small
image_if-step m stat false a ab front back core mode room small = rw (append-nil front) refl

-- Three more pieces move the position by all of them.
drop_four :
    (xs ys zs ws back : List ℕ)
    → drop (length ws) (drop (length zs) (drop (length ys) (drop (length xs) back)))
      ≡ drop (length (xs ++ (ys ++ (zs ++ ws)))) back
drop_four xs ys zs ws back =
    rw (length-append xs (ys ++ (zs ++ ws)), length-append ys (zs ++ ws), length-append zs ws)
      (rw
        (
          drop-add (length xs) (length ys + (length zs + length ws)) back,
          drop-add (length ys) (length zs + length ws) (drop (length xs) back),
          drop-add (length zs) (length ws) (drop (length ys) (drop (length xs) back)),
        )
        refl)

pub append_four :
    (front xs ys zs ws : List ℕ)
    → (((front ++ xs) ++ ys) ++ zs) ++ ws ≡ front ++ (xs ++ (ys ++ (zs ++ ws)))
append_four front xs ys zs ws =
    append_assoc ((front ++ xs) ++ ys) zs ws
    ∙ append_assoc (front ++ xs) ys (zs ++ ws)
    ∙ append_assoc front xs (ys ++ (zs ++ ws))

placed_four :
    (ab : AttrBuffer) (front back xs ys zs ws : List ℕ)
    → placed ab
        ((((front ++ xs) ++ ys) ++ zs) ++ ws)
        (drop (length ws) (drop (length zs) (drop (length ys) (drop (length xs) back))))
      ≡ placed ab
          (front ++ (xs ++ (ys ++ (zs ++ ws))))
          (drop (length (xs ++ (ys ++ (zs ++ ws)))) back)
placed_four ab front back xs ys zs ws =
    ap
      (λ f.
        placed ab f
          (drop (length ws) (drop (length zs) (drop (length ys) (drop (length xs) back)))))
      (append_four front xs ys zs ws)
    ∙ ap (λ b. placed ab (front ++ (xs ++ (ys ++ (zs ++ ws)))) b) (drop_four xs ys zs ws back)

pub length-wired :
    (m : Mapping) (stat : Stat) (v : Valid)
    → length (wired m stat v)
      ≡ length (image_if m stat v.has_size size)
        + (length (image_if m stat v.has_uidgid uidgid)
            + (length (image_if m stat v.has_permissions permissions)
                + length (image_if m stat v.has_acmodtime acmodtime)))
unfolding wired
length-wired m stat v =
    let xs = image_if m stat v.has_size size in
    let ys = image_if m stat v.has_uidgid uidgid in
    let zs = image_if m stat v.has_permissions permissions in
    let ws = image_if m stat v.has_acmodtime acmodtime in
    rw (length-append xs (ys ++ (zs ++ ws)), length-append ys (zs ++ ws), length-append zs ws) refl

-- In a buffer for writing, below 2 ^ 32 bytes, with as many bytes left as they take, the attributes of a
-- mask are written at the position: those of the mask that version 3 can write, in the order of the wire,
-- and the position moves behind them.
pub write_attributes_generic-wired :
    (m : Mapping) (stat : Stat) (v : Valid) (ab : AttrBuffer) (front back : List ℕ)
    → ab.ops ≡ ab_write
    → length (wired m stat v) ≤ length back
    → length front + length back < 2 ^ 32
    → (t : Valid) × (write_attributes_generic m stat v (placed ab front back)
        ≡ some (record {
          todo = t;
          on = placed ab (front ++ wired m stat v) (drop (length (wired m stat v)) back);
        }))
unfolding write_attributes_generic parse_attributes_generic both wired
write_attributes_generic-wired m stat v ab front back mode room small =
    let xs = image_if m stat v.has_size size in
    let ys = image_if m stat v.has_uidgid uidgid in
    let zs = image_if m stat v.has_permissions permissions in
    let ws = image_if m stat v.has_acmodtime acmodtime in
    let sum = length-wired m stat v in
    let b1 = drop (length xs) back in
    let b2 = drop (length ys) b1 in
    let b3 = drop (length zs) b2 in
    let l1 = length-drop (length xs) back in
    let l2 = length-drop (length ys) b1 in
    let l3 = length-drop (length zs) b2 in
    let f1 = length-append front xs in
    let f2 = length-append (front ++ xs) ys in
    let f3 = length-append ((front ++ xs) ++ ys) zs in
    let p1 = placed ab (front ++ xs) b1 in
    let p2 = placed ab ((front ++ xs) ++ ys) b2 in
    let p3 = placed ab (((front ++ xs) ++ ys) ++ zs) b3 in
    let p4 = placed ab ((((front ++ xs) ++ ys) ++ zs) ++ ws) (drop (length ws) b3) in
    let (t, e) =
      core_chain (write_attr m stat) w_valid v refl refl refl refl (and_false (v.has_extended))
        (placed ab front back) p1 p2 p3 p4
        (image_if-step m stat (v.has_size) size ab front back refl mode (omega arith) small)
        (image_if-step m stat (v.has_uidgid) uidgid ab (front ++ xs) b1 refl mode (omega arith)
          (omega arith))
        (image_if-step m stat (v.has_permissions) permissions ab ((front ++ xs) ++ ys) b2 refl mode
          (omega arith) (omega arith))
        (image_if-step m stat (v.has_acmodtime) acmodtime ab (((front ++ xs) ++ ys) ++ zs) b3 refl
          mode (omega arith) (omega arith)) in
    (t, e ∙ ap (λ q. some (record { todo = t; on = q })) (placed_four ab front back xs ys zs ws))
