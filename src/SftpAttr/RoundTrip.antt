-- ===== src/SftpAttr/RoundTrip.antt =====
-- Attributes that are written and read back:
-- src/lib/sftp/rw-attr-generic.c with the rows of src/lib/sftp/attr/init-attr-v03.c.
use osns.Prelude.{
  ℕ, ◌+◌, ◌^◌, ◌≤◌, ◌<◌, ◌≡◌, refl, ap, sym, ◌∙◌, arith, Bool, true, false, Option, some, List,
  ◌++◌, if◌then◌else◌, length, length-append, length-drop, drop, append_assoc, append-nil, bit_or,
}
use osns.SshString.{u32}
use osns.AttrBuffer.{AttrBuffer, ab_write}
use osns.AttrBuffer.RoundTrip.{placed}
use osns.SftpAttr.{
  Stat, Mapping, Attr, size, uidgid, permissions, acmodtime, Valid, r_valid, read_attr,
  set_uid_system_stat, set_gid_system_stat, set_size_system_stat, set_atime_system_stat,
  set_mtime_system_stat,
}
use osns.SftpAttr.Wired.{
  is_core, core_chain, and_true, parse_attributes_generic, read_attributes_generic,
  write_attributes_generic, Work,
}
use osns.SftpAttr.Write.{image_if, wired, write_attributes_generic-wired, append_four}
use osns.SftpAttr.Read.{kept_mode, received, IsSendable, read_attr-image}

received_if : Mapping → Stat → Bool → Attr → Stat → Stat
received_if m stat b a s = if b then received m stat a s else s

abbrev pub mark : Bool → ℕ → ℕ → ℕ
mark b bits mask = if b then bit_or mask bits else mask

-- `s` with those fields of `stat` that the mask names: seconds modulo 2 ^ 32 and no parts of them, the
-- type and the nine bits of the permissions, and a bit in `mask` for each.
unfoldable pub copied : Stat → Valid → Stat → Stat
copied stat v s = record {
  mask = mark v.has_acmodtime 64 (
      mark v.has_acmodtime 32 (
        mark v.has_permissions 2 (
          mark v.has_permissions 1
            (mark v.has_uidgid 16 (mark v.has_uidgid 8 (mark v.has_size 512 s.mask))))));
  mode = if v.has_permissions then kept_mode stat.mode else s.mode;
  uid = if v.has_uidgid then stat.uid else s.uid;
  gid = if v.has_uidgid then stat.gid else s.gid;
  size = if v.has_size then stat.size else s.size;
  atime = if v.has_acmodtime then record { sec = u32 stat.atime.sec; nsec = 0 } else s.atime;
  mtime = if v.has_acmodtime then record { sec = u32 stat.mtime.sec; nsec = 0 } else s.mtime;
}

received-size :
    (m : Mapping) (stat : Stat) (b : Bool) (s : Stat)
    → received_if m stat b size s
      ≡ record s { size = if b then stat.size else s.size; mask = mark b 512 s.mask }
unfolding received_if received set_size_system_stat
received-size m stat true s = refl
received-size m stat false s = refl

received-uidgid :
    (m : Mapping) (stat : Stat) (b : Bool) (s : Stat)
    → received_if m stat b uidgid s ≡ record s {
      uid = if b then stat.uid else s.uid;
      gid = if b then stat.gid else s.gid;
      mask = mark b 16 (mark b 8 s.mask);
    }
unfolding received_if received set_uid_system_stat set_gid_system_stat
received-uidgid m stat true s = refl
received-uidgid m stat false s = refl

received-permissions :
    (m : Mapping) (stat : Stat) (b : Bool) (s : Stat)
    → received_if m stat b permissions s ≡ record s {
      mode = if b then kept_mode stat.mode else s.mode;
      mask = mark b 2 (mark b 1 s.mask);
    }
unfolding received_if received
received-permissions m stat true s = refl
received-permissions m stat false s = refl

received-acmodtime :
    (m : Mapping) (stat : Stat) (b : Bool) (s : Stat)
    → received_if m stat b acmodtime s ≡ record s {
      atime = if b then record { sec = u32 stat.atime.sec; nsec = 0 } else s.atime;
      mtime = if b then record { sec = u32 stat.mtime.sec; nsec = 0 } else s.mtime;
      mask = mark b 64 (mark b 32 s.mask);
    }
unfolding received_if received set_atime_system_stat set_mtime_system_stat
received-acmodtime m stat true s = refl
received-acmodtime m stat false s = refl

received_all :
    (m : Mapping) (stat : Stat) (v : Valid) (s : Stat)
    → received_if m stat v.has_acmodtime acmodtime (
        received_if m stat v.has_permissions permissions
          (received_if m stat v.has_uidgid uidgid (received_if m stat v.has_size size s)))
      ≡ copied stat v s
unfolding copied
received_all m stat v s =
    ap
      (λ x. received_if m stat v.has_acmodtime acmodtime (
        received_if m stat v.has_permissions permissions
          (received_if m stat v.has_uidgid uidgid x)))
      (received-size m stat (v.has_size) s)
    ∙ ap
        (λ x.
          received_if m stat v.has_acmodtime acmodtime
            (received_if m stat v.has_permissions permissions x))
        (received-uidgid m stat (v.has_uidgid) _)
    ∙ ap (λ x. received_if m stat v.has_acmodtime acmodtime x)
        (received-permissions m stat (v.has_permissions) _)
    ∙ received-acmodtime m stat (v.has_acmodtime) _

read_if-step :
    (m : Mapping) (stat : Stat) (b : Bool) (a : Attr) (ab : AttrBuffer) (s : Stat)
    (front rest : List ℕ)
    → is_core a ≡ true
    → IsSendable m stat
    → length front + length (image_if m stat b a ++ rest) < 2 ^ 32
    → (if b
        then read_attr m a (placed ab front (image_if m stat b a ++ rest), s)
        else some (placed ab front (image_if m stat b a ++ rest), s))
      ≡ some (placed ab (front ++ image_if m stat b a) rest, received_if m stat b a s)
unfolding received_if
read_if-step m stat true a ab s front rest core good small =
    read_attr-image m stat a ab s front rest core good small
read_if-step m stat false a ab s front rest core good small = rw (append-nil front) refl

assoc_four :
    (xs ys zs ws rest : List ℕ)
    → (xs ++ (ys ++ (zs ++ ws))) ++ rest ≡ xs ++ (ys ++ (zs ++ (ws ++ rest)))
assoc_four xs ys zs ws rest =
    append_assoc xs (ys ++ (zs ++ ws)) rest
    ∙ ap (λ t. xs ++ t) (append_assoc ys (zs ++ ws) rest)
    ∙ ap (λ t. xs ++ (ys ++ t)) (append_assoc zs ws rest)

-- The bytes of a mask without extensions, before anything else, are read at the position of a buffer below
-- 2 ^ 32 bytes.
read_attributes_generic-wired :
    (m : Mapping) (stat : Stat) (v : Valid) (ab : AttrBuffer) (s : Stat) (front rest : List ℕ)
    → v.has_extended ≡ false
    → IsSendable m stat
    → length front + length (wired m stat v ++ rest) < 2 ^ 32
    → (t : Valid) × (read_attributes_generic m s v (placed ab front (wired m stat v ++ rest))
        ≡ some
            (record { todo = t; on = (placed ab (front ++ wired m stat v) rest, copied stat v s) }))
unfolding read_attributes_generic parse_attributes_generic wired
read_attributes_generic-wired m stat v ab s front rest no_ext good small =
    let xs = image_if m stat v.has_size size in
    let ys = image_if m stat v.has_uidgid uidgid in
    let zs = image_if m stat v.has_permissions permissions in
    let ws = image_if m stat v.has_acmodtime acmodtime in
    let split = assoc_four xs ys zs ws rest in
    let l0 = ap length split in
    let l1 = length-append xs (ys ++ (zs ++ (ws ++ rest))) in
    let l2 = length-append ys (zs ++ (ws ++ rest)) in
    let l3 = length-append zs (ws ++ rest) in
    let f1 = length-append front xs in
    let f2 = length-append (front ++ xs) ys in
    let f3 = length-append ((front ++ xs) ++ ys) zs in
    let s1 = received_if m stat v.has_size size s in
    let s2 = received_if m stat v.has_uidgid uidgid s1 in
    let s3 = received_if m stat v.has_permissions permissions s2 in
    let s4 = received_if m stat v.has_acmodtime acmodtime s3 in
    let (t, e) =
      core_chain (read_attr m) r_valid v refl refl refl refl
        (and_true (v.has_extended) true refl ∙ no_ext)
        (placed ab front (xs ++ (ys ++ (zs ++ (ws ++ rest)))), s)
        (placed ab (front ++ xs) (ys ++ (zs ++ (ws ++ rest))), s1)
        (placed ab ((front ++ xs) ++ ys) (zs ++ (ws ++ rest)), s2)
        (placed ab (((front ++ xs) ++ ys) ++ zs) (ws ++ rest), s3)
        (placed ab ((((front ++ xs) ++ ys) ++ zs) ++ ws) rest, s4)
        (read_if-step m stat (v.has_size) size ab s front _ refl good (omega arith))
        (read_if-step m stat (v.has_uidgid) uidgid ab s1 (front ++ xs) _ refl good (omega arith))
        (read_if-step m stat (v.has_permissions) permissions ab s2 ((front ++ xs) ++ ys) _ refl good
          (omega arith))
        (read_if-step m stat (v.has_acmodtime) acmodtime ab s3 (((front ++ xs) ++ ys) ++ zs) _ refl
          good (omega arith)) in
    (
      t,
      ap (λ b. read_attributes_generic m s v (placed ab front b)) split
          ∙ e
          ∙ ap (λ f. some (record { todo = t; on = (placed ab f rest, s4) }))
              (append_four front xs ys zs ws)
          ∙ ap
              (λ x. some (record {
                todo = t;
                on = (placed ab (front ++ (xs ++ (ys ++ (zs ++ ws)))) rest, x);
              }))
              (received_all m stat v s),
    )

-- Attributes that are written in a buffer, below 2 ^ 32 bytes and with room for them, are read back from
-- the place where they were written: a mask without extensions gives the fields it names, the seconds
-- modulo 2 ^ 32 and of the mode the type and nine bits, the other fields are as they were, and the
-- reader ends where the writer did. The ids and the size fit on the wire, and the mapping of the reader
-- undoes that of the writer.
pub write-read_attributes :
    (m : Mapping) (stat : Stat) (v : Valid) (ab ab' : AttrBuffer) (s : Stat) (front back : List ℕ)
    → v.has_extended ≡ false
    → IsSendable m stat
    → ab.ops ≡ ab_write
    → length (wired m stat v) ≤ length back
    → length front + length back < 2 ^ 32
    → (w : Work AttrBuffer) × (t : Valid) × (write_attributes_generic m stat v
          (placed ab front back)
        ≡ some w)
      × (read_attributes_generic m s v
            (record ab' { buffer = w.on.buffer; pos = length front; left = length back })
          ≡ some (record {
            todo = t;
            on = (
              record ab' { buffer = w.on.buffer; pos = w.on.pos; left = w.on.left },
              copied stat v s,
            );
          }))
write-read_attributes m stat v ab ab' s front back no_ext good mode room small =
    let image = wired m stat v in
    let rest = drop (length image) back in
    let (u, written) = write_attributes_generic-wired m stat v ab front back mode room small in
    let len : length (image ++ rest) ≡ length back =
      omega (arith, length-append image rest, length-drop (length image) back) in
    let (t, e) =
      read_attributes_generic-wired m stat v ab' s front rest no_ext good (omega arith) in
    let w : Work AttrBuffer = record { todo = u; on = placed ab (front ++ image) rest } in
    let reads : List ℕ → ℕ → Option (Work (AttrBuffer × Stat)) = λ x n.
      read_attributes_generic m s v
        (record ab' { buffer = some x; pos = length front; left = n }) in
    (
      w,
      t,
      written,
      ap (λ x. reads x (length back)) (append_assoc front image rest)
          ∙ ap (λ n. reads (front ++ (image ++ rest)) n) (sym len)
          ∙ e,
    )
