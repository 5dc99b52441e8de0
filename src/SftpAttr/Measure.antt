-- ===== src/SftpAttr/Measure.antt =====
-- The size that get_size_buffer_write_attributes of src/lib/sftp/rw-attr-generic.c computes, beside what
-- is written.
use osns.Prelude.{
  ℕ, ◌+◌, ◌^◌, ◌≤◌, ◌<◌, List, ◌≡◌, refl, ap, sym, ◌∙◌, arith, Bool, true, false, some,
  if◌then◌else◌, length, length-append,
}
use osns.Wire.{four}
use osns.Wire.RoundTrip.{length-four, length-eight}
use osns.SshString.{u32}
use osns.SftpAttr.{
  Stat, Mapping, Attr, size, uidgid, permissions, acmodtime, extended, Valid, w_valid, maxlength,
}
use osns.AttrBuffer.{AttrBuffer, ab_write}
use osns.AttrBuffer.RoundTrip.{placed}
use osns.SftpAttr.Wired.{
  Work, write_attributes_generic, is_core, core_chain, and_false, parse_attributes_generic,
  get_size_buffer_write_attributes,
}
use osns.SftpAttr.Write.{image, image_if, wired, length-wired, write_attributes_generic-wired}

image-maxlength :
    (m : Mapping) (stat : Stat) (a : Attr)
    → is_core a ≡ true
    → length (image m stat a) ≡ maxlength a
unfolding image maxlength
image-maxlength m stat size core = length-eight (stat.size)
image-maxlength m stat uidgid core =
    let first = length-four (m.get_user_l2p stat.uid) in
    let second = length-four (m.get_group_l2p stat.gid) in
    omega (arith, length-append (four (m.get_user_l2p stat.uid)) (four (m.get_group_l2p stat.gid)))
image-maxlength m stat permissions core = length-four _
image-maxlength m stat acmodtime core =
    let first = length-four (u32 stat.atime.sec) in
    let second = length-four (u32 stat.mtime.sec) in
    omega (arith, length-append (four (u32 stat.atime.sec)) (four (u32 stat.mtime.sec)))
image-maxlength m stat extended core = cc

measure-step :
    (m : Mapping) (stat : Stat) (b : Bool) (a : Attr) (len : ℕ)
    → is_core a ≡ true
    → (if b then some (len + maxlength a) else some len) ≡ some (len + length (image_if m stat b a))
measure-step m stat true a len core = ap (λ n. some (len + n)) (sym (image-maxlength m stat a core))
measure-step m stat false a len core = ap some (omega arith)

-- The size that is computed beforehand is the number of bytes that the writing of the same mask puts in
-- the buffer, whatever the values are.
get_size_buffer_write_attributes-wired :
    (m : Mapping) (stat : Stat) (v : Valid)
    → (t : Valid) × (get_size_buffer_write_attributes v
        ≡ some (record { todo = t; on = length (wired m stat v) }))
unfolding get_size_buffer_write_attributes parse_attributes_generic
get_size_buffer_write_attributes-wired m stat v =
    let n1 = 0 + length (image_if m stat v.has_size size) in
    let n2 = n1 + length (image_if m stat v.has_uidgid uidgid) in
    let n3 = n2 + length (image_if m stat v.has_permissions permissions) in
    let n4 = n3 + length (image_if m stat v.has_acmodtime acmodtime) in
    let (t, e) =
      core_chain (λ a len. some (len + maxlength a)) w_valid v refl refl refl refl
        (and_false (v.has_extended)) 0 n1 n2 n3 n4 (measure-step m stat (v.has_size) size 0 refl)
        (measure-step m stat (v.has_uidgid) uidgid n1 refl)
        (measure-step m stat (v.has_permissions) permissions n2 refl)
        (measure-step m stat (v.has_acmodtime) acmodtime n3 refl) in
    (t, e ∙ ap (λ n. some (record { todo = t; on = n })) (omega (arith, length-wired m stat v)))

some_on : (r r' : Work ℕ) → some r ≡ some r' → r.on ≡ r'.on
some_on r r' e = cc

-- A buffer for writing, below 2 ^ 32 bytes, that has as many bytes left as the size that is computed
-- beforehand for a mask takes the attributes of that mask, whatever their values are, and the position moves
-- by exactly that size.
pub get_size-write_attributes :
    (m : Mapping) (stat : Stat) (v : Valid) (r : Work ℕ) (ab : AttrBuffer) (front back : List ℕ)
    → get_size_buffer_write_attributes v ≡ some r
    → ab.ops ≡ ab_write
    → r.on ≤ length back
    → length front + length back < 2 ^ 32
    → (w : Work AttrBuffer) × (write_attributes_generic m stat v (placed ab front back) ≡ some w)
      × (w.on.pos ≡ length front + r.on)
get_size-write_attributes m stat v r ab front back measured mode room small =
    let (t, e) = get_size_buffer_write_attributes-wired m stat v in
    let n : r.on ≡ length (wired m stat v) = some_on r _ (sym measured ∙ e) in
    let (u, written) =
      write_attributes_generic-wired m stat v ab front back mode (omega arith) small in
    (_, written, omega (arith, length-append front (wired m stat v)))
