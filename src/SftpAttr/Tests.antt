-- ===== src/SftpAttr/Tests.antt =====
-- The theorems on attributes, for a file with an odd mode and a mapping that shifts the ids.
use osns.Prelude.{ℕ, ◌+◌, ◌-◌, ◌≡◌, refl, arith, false, some, List, [], ◌∷◌, length}
use osns.AttrBuffer.{AttrBuffer, set_attr_buffer_write, set_attr_buffer_read}
use osns.AttrBuffer.RoundTrip.{placed}
use osns.SftpAttr.{Attr, write_attr, Stat, Mapping, Valid, w_valid}
use osns.SftpAttr.Cached.{note_row, parse_rows, note-replay}
use osns.SftpAttr.Wired.{
  parse_attributes_v03, Work, write_attributes_generic, read_attributes_generic,
  get_size_buffer_write_attributes,
}
use osns.SftpAttr.Write.{wired}
use osns.SftpAttr.Read.{IsSendable}
use osns.SftpAttr.Measure.{get_size-write_attributes}
use osns.SftpAttr.RoundTrip.{copied, write-read_attributes}

abbrev shift : Mapping
shift = record {
  get_user_l2p = λ n. n + 1000;
  get_user_p2l = λ n. n - 1000;
  get_group_l2p = λ n. n + 100;
  get_group_p2l = λ n. n - 100;
}

-- A file with the set-user-id bit.
abbrev file : Stat
file = record {
  mask = 0;
  mode = 0x89ed;
  uid = 7;
  gid = 8;
  size = 4097;
  atime = record { sec = 1700000000; nsec = 5 };
  mtime = record { sec = 1700000001; nsec = 6 };
}

abbrev fresh : Stat
fresh = record {
  mask = 0;
  mode = 0;
  uid = 0;
  gid = 0;
  size = 0;
  atime = record { sec = 0; nsec = 0 };
  mtime = record { sec = 0; nsec = 0 };
}

abbrev no_size : Valid
no_size = record w_valid { has_size = false }

abbrev blank : List ℕ
blank = 0 ∷ 0 ∷ 0 ∷ 0 ∷ 0 ∷ 0 ∷ 0 ∷ 0 ∷ 0 ∷ 0 ∷ 0 ∷ 0 ∷ 0 ∷ 0 ∷ 0 ∷ 0 ∷ 0 ∷ 0 ∷ 0 ∷ 0 ∷ 0 ∷ 0 ∷ []

abbrev writer : AttrBuffer
writer = set_attr_buffer_write blank 22

abbrev reader : AttrBuffer
reader = set_attr_buffer_read blank 22

file-IsSendable : IsSendable shift file
file-IsSendable = record {
  user_fits = omega arith;
  group_fits = omega arith;
  size_fits = omega arith;
  user_back = refl;
  group_back = refl;
}

-- The mode that is kept has no set-user-id bit.
copied-mode : (copied file w_valid fresh).mode ≡ 0x81ed
unfolding copied osns.SftpAttr.format_of
copied-mode = refl

wired-length : length (wired shift file no_size) ≡ 20
unfolding wired osns.SftpAttr.Write.image osns.Wire.four
wired-length = refl

write-read_attributes_example :
    (w : Work AttrBuffer) × (t : Valid) × (write_attributes_generic shift file no_size
        (placed writer (9 ∷ []) blank)
      ≡ some w)
    × (read_attributes_generic shift fresh no_size
          (record reader { buffer = w.on.buffer; pos = 1; left = 22 })
        ≡ some (record {
          todo = t;
          on = (
            record reader { buffer = w.on.buffer; pos = w.on.pos; left = w.on.left },
            copied file no_size fresh,
          );
        }))
unfolding set_attr_buffer_write
write-read_attributes_example =
    write-read_attributes shift file no_size writer reader fresh (9 ∷ []) blank refl file-IsSendable
      refl (omega (arith, wired-length)) (omega arith)

abbrev measured : Work ℕ
measured = record {
  todo = record {
    has_size = false;
    has_uidgid = false;
    has_permissions = false;
    has_acmodtime = false;
    has_extended = false;
  };
  on = 20;
}

no_size-measured : get_size_buffer_write_attributes no_size ≡ some measured
unfolding get_size_buffer_write_attributes osns.SftpAttr.both osns.SftpAttr.maxlength
no_size-measured = refl

get_size-write_attributes_example :
    (w : Work AttrBuffer) × (write_attributes_generic shift file no_size
        (placed writer (9 ∷ []) blank)
      ≡ some w)
    × (w.on.pos ≡ 1 + 20)
unfolding set_attr_buffer_write
get_size-write_attributes_example =
    get_size-write_attributes shift file no_size measured writer (9 ∷ []) blank no_size-measured
      refl (omega arith) (omega arith)

note-replay_example :
    (rows : List Attr) × (t : Valid) × (parse_attributes_v03 note_row
        (record { todo = no_size; on = [] })
      ≡ some (record { todo = t; on = rows }))
    × (parse_rows (write_attr shift file) rows (record { todo = no_size; on = writer })
        ≡ parse_attributes_v03 (write_attr shift file) (record { todo = no_size; on = writer }))
note-replay_example = note-replay (write_attr shift file) no_size writer
