-- ===== src/SftpAttr/Read.antt =====
-- The readers of src/lib/sftp/attr/read-attr-v03.c on the bytes that the writers make, and the masks of
-- the type and the permissions in src/lib/system/stat.c.
use osns.Prelude.{
  ℕ, ◌+◌, ◌*◌, ◌/◌, ◌%◌, ◌^◌, ◌<◌, ◌≡◌, refl, ap, ◌∙◌, arith, true, some, List, ◌++◌, length,
  length-append, append_assoc, bit_or,
}
use osns.Prelude.Bits.{bit_or-disjoint}
use osns.Wire.{four, IsU32, IsU64}
use osns.SshString.{u32}
use osns.AttrBuffer.{AttrBuffer, read_uint32}
use osns.AttrBuffer.RoundTrip.{placed, read_uint32-placed, read_uint64-placed}
use osns.SftpAttr.{
  Stat, Mapping, Attr, size, uidgid, permissions, acmodtime, extended, read_attr, format_of,
  get_type_system_stat, get_mode_system_stat, set_type_system_stat, set_mode_system_stat,
  set_uid_system_stat, set_gid_system_stat, set_size_system_stat, set_atime_system_stat,
  set_mtime_system_stat,
}
use osns.SftpAttr.Wired.{is_core}
use osns.SftpAttr.Write.{sent_mode, image}

-- The type and the nine bits of the permissions; the other three are not kept.
abbrev pub kept_mode : ℕ → ℕ
kept_mode mode = format_of mode + mode % 512

pub sent_mode-kept : (stat : Stat) → sent_mode stat ≡ kept_mode stat.mode
unfolding get_type_system_stat get_mode_system_stat format_of
sent_mode-kept stat =
    let joined =
      bit_or-disjoint 12 (stat.mode / 4096 % 16) (stat.mode % 4096 % 512) (omega arith) in
    joined ∙ omega arith

kept_mode-IsU32 : (mode : ℕ) → IsU32 (kept_mode mode)
unfolding format_of
kept_mode-IsU32 mode = omega arith

-- The setters for the type and the permissions make of a kept mode the same again.
set_mode-kept :
    (mode old : ℕ)
    → bit_or
        (format_of (bit_or (format_of (format_of (kept_mode mode))) (old % 4096)))
        (kept_mode mode % 512 % 4096)
      ≡ kept_mode mode
unfolding format_of
set_mode-kept mode old =
    let x = mode / 4096 % 16 in
    let typed : format_of (format_of (kept_mode mode)) ≡ x * 2 ^ 12 = omega arith in
    let step1 = bit_or-disjoint 12 x (old % 4096) (omega arith) in
    let again : format_of (x * 2 ^ 12 + old % 4096) ≡ x * 2 ^ 12 = omega arith in
    let step2 = bit_or-disjoint 12 x (kept_mode mode % 512 % 4096) (omega arith) in
    ap (λ t. bit_or (format_of (bit_or t (old % 4096))) (kept_mode mode % 512 % 4096)) typed
    ∙ ap (λ t. bit_or (format_of t) (kept_mode mode % 512 % 4096)) step1
    ∙ ap (λ t. bit_or t (kept_mode mode % 512 % 4096)) again
    ∙ step2
    ∙ omega arith

read_first :
    (ab : AttrBuffer) (front rest : List ℕ) (x y : ℕ)
    → IsU32 x
    → length front + length ((four x ++ four y) ++ rest) < 2 ^ 32
    → read_uint32 (placed ab front ((four x ++ four y) ++ rest))
      ≡ some (x, placed ab (front ++ four x) (four y ++ rest))
read_first ab front rest x y fits small =
    let assoc = append_assoc (four x) (four y) rest in
    rw assoc (read_uint32-placed ab front (four y ++ rest) x fits (rw assoc at small))

read_second :
    (ab : AttrBuffer) (front rest : List ℕ) (x y : ℕ)
    → IsU32 y
    → length front + length ((four x ++ four y) ++ rest) < 2 ^ 32
    → read_uint32 (placed ab (front ++ four x) (four y ++ rest))
      ≡ some (y, placed ab (front ++ (four x ++ four y)) rest)
read_second ab front rest x y fits small =
    let assoc = append_assoc (four x) (four y) rest in
    let all = length-append (four x) (four y ++ rest) in
    let moved = length-append front (four x) in
    read_uint32-placed ab (front ++ four x) rest y fits (omega (arith, ap length assoc))
    ∙ ap (λ f. some (y, placed ab f rest)) (append_assoc front (four x) (four y))

-- What a reader makes of an attribute that was written from `stat`.
unfoldable pub received : Mapping → Stat → Attr → Stat → Stat
received m stat size s = set_size_system_stat stat.size s
received m stat uidgid s = set_gid_system_stat stat.gid (set_uid_system_stat stat.uid s)
received m stat permissions s = record s {
  mode = kept_mode stat.mode;
  mask = bit_or (bit_or s.mask 1) 2;
}
received m stat acmodtime s =
    set_mtime_system_stat (record { sec = u32 stat.mtime.sec; nsec = 0 })
      (set_atime_system_stat (record { sec = u32 stat.atime.sec; nsec = 0 }) s)
received m stat extended s = s

-- The ids and the size fit in the fields of the wire, and the mapping of the reader undoes that of the
-- writer.
pub record IsSendable (m : Mapping) (stat : Stat) : Type 0 where
  pub user_fits : IsU32 (m.get_user_l2p stat.uid)
  pub group_fits : IsU32 (m.get_group_l2p stat.gid)
  pub size_fits : IsU64 stat.size
  pub user_back : m.get_user_p2l (m.get_user_l2p stat.uid) ≡ stat.uid
  pub group_back : m.get_group_p2l (m.get_group_l2p stat.gid) ≡ stat.gid

pub read_attr-image :
    (m : Mapping) (stat : Stat) (a : Attr) (ab : AttrBuffer) (s : Stat) (front rest : List ℕ)
    → is_core a ≡ true
    → IsSendable m stat
    → length front + length (image m stat a ++ rest) < 2 ^ 32
    → read_attr m a (placed ab front (image m stat a ++ rest), s)
      ≡ some (placed ab (front ++ image m stat a) rest, received m stat a s)
unfolding read_attr image received set_type_system_stat set_mode_system_stat set_uid_system_stat
    set_gid_system_stat set_size_system_stat set_atime_system_stat set_mtime_system_stat
read_attr-image m stat size ab s front rest core good small =
    rw (read_uint64-placed ab front rest (stat.size) (good.size_fits) small) refl
read_attr-image m stat uidgid ab s front rest core good small =
    rw
      (
        read_first ab front rest _ _ (good.user_fits) small,
        read_second ab front rest (m.get_user_l2p stat.uid) _ (good.group_fits) small,
        good.user_back,
        good.group_back,
      )
      refl
read_attr-image m stat permissions ab s front rest core good small =
    let kept = sent_mode-kept stat in
    let there = rw kept at small in
    rw
      (
        kept,
        read_uint32-placed ab front rest (kept_mode stat.mode) (kept_mode-IsU32 (stat.mode)) there,
      )
      (ap
        (λ x. some (
          placed ab (front ++ four (kept_mode stat.mode)) rest,
          record s { mode = x; mask = bit_or (bit_or s.mask 1) 2 },
        ))
        (set_mode-kept (stat.mode) (s.mode)))
read_attr-image m stat acmodtime ab s front rest core good small =
    rw
      (
        read_first ab front rest _ _ (omega arith) small,
        read_second ab front rest (u32 stat.atime.sec) _ (omega arith) small,
      )
      refl
read_attr-image m stat extended ab s front rest core good small = cc
