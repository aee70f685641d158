-- ===== src/Proto/Sizes.antt =====
-- `sizeof` of the protocol's structures and the macro `snfs_rep_size` of
-- lab2/include/server/main.h. An `snfs_msg_type` and an `snfs_error` take four bytes: the
-- enumerations are packed and list INT_MAX.
use stanford_cs240_sp21_labs.Base.{ℕ, ◌+◌, ◌*◌, length}
use stanford_cs240_sp21_labs.Proto.Types.{max_filename_buf}
use stanford_cs240_sp21_labs.Proto.Replys.{
  Rep, noop_rep, error_rep, getattr_rep, mount_rep, readdir_rep, lookup_rep, read_rep, write_rep,
  setattr_rep, create_rep, remove_rep, rename_rep, mkdir_rep,
}

abbrev pub sizeof_msg_type : ℕ
sizeof_msg_type = 4

abbrev pub sizeof_fattr : ℕ
sizeof_fattr = 4 + 8 * 8 + 3 * 16

abbrev pub sizeof_snfsentry : ℕ
sizeof_snfsentry = 8 + max_filename_buf

-- `snfs_rep_size`, one constant for each kind of reply.
abbrev pub error_size : ℕ
error_size = sizeof_msg_type + 4

abbrev pub getattr_size : ℕ
getattr_size = sizeof_msg_type + sizeof_fattr

abbrev pub mount_size : ℕ
mount_size = sizeof_msg_type + 8

abbrev pub readdir_size : ℕ
readdir_size = sizeof_msg_type + 8

abbrev pub lookup_size : ℕ
lookup_size = sizeof_msg_type + (8 + sizeof_fattr)

abbrev pub read_size : ℕ
read_size = sizeof_msg_type + 16

abbrev pub write_size : ℕ
write_size = sizeof_msg_type + 8

abbrev pub setattr_size : ℕ
setattr_size = sizeof_msg_type + 8

abbrev pub create_size : ℕ
create_size = sizeof_msg_type + 8

abbrev pub remove_size : ℕ
remove_size = sizeof_msg_type

abbrev pub rename_size : ℕ
rename_size = sizeof_msg_type + 8

abbrev pub mkdir_size : ℕ
mkdir_size = sizeof_msg_type + 8

-- The bytes that a reply takes, from its own content: the type, the fixed fields, and as many
-- entries or bytes as its flexible array holds.
abbrev pub wire_size : Rep → ℕ
wire_size noop_rep = 4
wire_size (error_rep e) = 8
wire_size (getattr_rep a) = 4 + 116
wire_size (mount_rep h) = 4 + 8
wire_size (readdir_rep r) = 4 + 8 + 264 * length r.entries
wire_size (lookup_rep r) = 4 + 8 + 116
wire_size (read_rep r) = 4 + 8 + 8 + length r.payload
wire_size (write_rep n) = 4 + 8
wire_size (setattr_rep n) = 4 + 8
wire_size (create_rep h) = 4 + 8
wire_size remove_rep = 4
wire_size (rename_rep h) = 4 + 8
wire_size (mkdir_rep h) = 4 + 8
