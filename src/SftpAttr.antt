-- ===== src/SftpAttr.antt =====
-- The attributes of files in version 3 of SFTP: src/lib/sftp/attr/write-attr-v03.c, read-attr-v03.c and
-- init-attr-v03.c, what src/lib/sftp/rw-attr-generic.c does with them without its table of earlier results,
-- and the setters and getters of src/lib/system/stat.c that they use, on attribute buffers. A mask of
-- attributes is a record of its bits. Seconds are patterns of 64 bits. The mappings of users and groups
-- between the two sides are a parameter.
mod Tests
pub mod Wired
pub mod Cached
pub mod Write
pub mod Read
pub mod Measure
pub mod RoundTrip
use osns.Prelude.{
  ℕ, zero, suc, ◌+◌, ◌*◌, ◌/◌, ◌%◌, ◌^◌, Bool, true, false, not, Option, none, some, ◌>>=◌, ◌&&◌,
  if◌then◌else◌,
}
use osns.Prelude.{bit_or}
use osns.SshString.{SshString, u32, ssh_string_init}
use osns.AttrBuffer.{AttrBuffer, write_uint32, write_uint64, read_uint32, read_uint64, read_string}

pub record Time : Type 0 where
  pub sec : ℕ
  pub nsec : ℕ

-- The fields of `struct system_stat_s` that are used here; `mode` has 16 bits.
pub record Stat : Type 0 where
  pub mask : ℕ
  pub mode : ℕ
  pub uid : ℕ
  pub gid : ℕ
  pub size : ℕ
  pub atime : Time
  pub mtime : Time

-- `& S_IFMT` keeps the upper four of 16 bits, `& ~S_IFMT` the lower twelve.
unfoldable pub format_of : ℕ → ℕ
format_of mode = mode / 4096 % 16 * 4096

unfoldable pub get_type_system_stat : Stat → ℕ
unfolding format_of
get_type_system_stat stat = format_of stat.mode

unfoldable pub get_mode_system_stat : Stat → ℕ
get_mode_system_stat stat = stat.mode % 4096

-- `(type & S_IFMT) | perm`
unfoldable pub set_type_system_stat : ℕ → Stat → Stat
unfolding format_of
set_type_system_stat type stat = record stat {
  mode = bit_or (format_of type) (stat.mode % 4096);
  mask = bit_or stat.mask 1;
}

unfoldable pub set_mode_system_stat : ℕ → Stat → Stat
unfolding format_of
set_mode_system_stat mode stat = record stat {
  mode = bit_or (format_of stat.mode) (mode % 4096);
  mask = bit_or stat.mask 2;
}

unfoldable pub set_uid_system_stat : ℕ → Stat → Stat
set_uid_system_stat uid stat = record stat { uid = uid; mask = bit_or stat.mask 8 }

unfoldable pub set_gid_system_stat : ℕ → Stat → Stat
set_gid_system_stat gid stat = record stat { gid = gid; mask = bit_or stat.mask 16 }

unfoldable pub set_size_system_stat : ℕ → Stat → Stat
set_size_system_stat size stat = record stat { size = size; mask = bit_or stat.mask 512 }

unfoldable pub set_atime_system_stat : Time → Stat → Stat
set_atime_system_stat time stat = record stat { atime = time; mask = bit_or stat.mask 32 }

unfoldable pub set_mtime_system_stat : Time → Stat → Stat
set_mtime_system_stat time stat = record stat { mtime = time; mask = bit_or stat.mask 64 }

-- The callbacks of `ctx->mapping`, from a local id to that of the protocol and back.
pub record Mapping : Type 0 where
  pub get_user_l2p : ℕ → ℕ
  pub get_user_p2l : ℕ → ℕ
  pub get_group_l2p : ℕ → ℕ
  pub get_group_p2l : ℕ → ℕ

-- The rows of the table of callbacks that version 3 fills.
pub data Attr : Type 0 where
  size uidgid permissions acmodtime extended : Attr

-- A mask of attributes, bit by bit.
pub record Valid : Type 0 where
  pub has_size : Bool
  pub has_uidgid : Bool
  pub has_permissions : Bool
  pub has_acmodtime : Bool
  pub has_extended : Bool

unfoldable pub both : Valid → Valid → Valid
both v w = record {
  has_size = v.has_size && w.has_size;
  has_uidgid = v.has_uidgid && w.has_uidgid;
  has_permissions = v.has_permissions && w.has_permissions;
  has_acmodtime = v.has_acmodtime && w.has_acmodtime;
  has_extended = v.has_extended && w.has_extended;
}

-- `w_valid` and `r_valid`.
abbrev pub w_valid : Valid
w_valid = record {
  has_size = true;
  has_uidgid = true;
  has_permissions = true;
  has_acmodtime = true;
  has_extended = false;
}

abbrev pub r_valid : Valid
r_valid = record {
  has_size = true;
  has_uidgid = true;
  has_permissions = true;
  has_acmodtime = true;
  has_extended = true;
}

-- `maxlength` of a row.
unfoldable pub maxlength : Attr → ℕ
maxlength size = 8
maxlength uidgid = 8
maxlength permissions = 4
maxlength acmodtime = 8
maxlength extended = 0

-- `todo &= ~code`
unfoldable pub clear : Attr → Valid → Valid
clear size v = record v { has_size = false }
clear uidgid v = record v { has_uidgid = false }
clear permissions v = record v { has_permissions = false }
clear acmodtime v = record v { has_acmodtime = false }
clear extended v = record v { has_extended = false }

-- The `w_cb` of a row.
unfoldable pub write_attr : Mapping → Stat → Attr → AttrBuffer → Option AttrBuffer
unfolding get_type_system_stat get_mode_system_stat
write_attr m stat size ab = write_uint64 ab stat.size
write_attr m stat uidgid ab = do
  ab' ← write_uint32 ab (m.get_user_l2p stat.uid)
  write_uint32 ab' (m.get_group_l2p stat.gid)
write_attr m stat permissions ab =
    write_uint32 ab (bit_or (get_type_system_stat stat) (get_mode_system_stat stat % 512))
write_attr m stat acmodtime ab = do
  ab' ← write_uint32 ab (u32 stat.atime.sec)
  write_uint32 ab' (u32 stat.mtime.sec)
write_attr m stat extended ab = none

abbrev pub read_pair : AttrBuffer → Option AttrBuffer
read_pair ab = do
  (_, _, _, ab') ← read_string (λ _ t. t) ab ssh_string_init tt
  (_, _, _, ab'') ← read_string (λ _ t. t) ab' ssh_string_init tt
  some ab''

-- The loop over the extensions, which are read and not kept.
unfoldable pub read_pairs : ℕ → AttrBuffer → Option AttrBuffer
read_pairs zero ab = some ab
read_pairs (suc n) ab = do ab' ← read_pair ab; read_pairs n ab'

-- The `r_cb` of a row.
unfoldable pub read_attr : Mapping → Attr → AttrBuffer × Stat → Option (AttrBuffer × Stat)
unfolding read_pairs format_of set_type_system_stat set_mode_system_stat set_uid_system_stat
    set_gid_system_stat set_size_system_stat set_atime_system_stat set_mtime_system_stat
read_attr m size (ab, stat) = do (n, ab') ← read_uint64 ab; some (ab', set_size_system_stat n stat)
read_attr m uidgid (ab, stat) = do
  (user, ab') ← read_uint32 ab
  (group, ab'') ← read_uint32 ab'
  some (
    ab'',
    set_gid_system_stat (m.get_group_p2l group) (set_uid_system_stat (m.get_user_p2l user) stat),
  )
read_attr m permissions (ab, stat) = do
  (mode, ab') ← read_uint32 ab
  some (ab', set_mode_system_stat (mode % 512) (set_type_system_stat (format_of mode) stat))
read_attr m acmodtime (ab, stat) = do
  (access, ab') ← read_uint32 ab
  (modify, ab'') ← read_uint32 ab'
  some (
    ab'',
    set_mtime_system_stat (record { sec = modify; nsec = 0 })
        (set_atime_system_stat (record { sec = access; nsec = 0 }) stat),
  )
read_attr m extended (ab, stat) = do
  (count, ab') ← read_uint32 ab
  ab'' ← read_pairs count ab'
  some (ab'', stat)
