-- ===== src/Server/Attr.antt =====
-- `stat_to_fattr` of lab2/src/server/handlers.c, as it is compiled on Linux: the microseconds of the
-- three times are left as they are.
use stanford_cs240_sp21_labs.Base.{Bool, if◌then◌else◌, ℕ, ◌%◌, ◌/◌, ◌==◌}
use stanford_cs240_sp21_labs.Base.Bytes.{u64}
use stanford_cs240_sp21_labs.Base.Int.{ℤ}
use stanford_cs240_sp21_labs.Platform.{Stat}
use stanford_cs240_sp21_labs.Proto.{Fattr, Ftype, Timeval, snfblk, snfchr, snfdir, snflnk, snfnon}
use stanford_cs240_sp21_labs.Proto.{snfreg}

-- The tests S_ISREG and so on look at the four bits above the permissions.
abbrev pub file_format : ℕ → ℕ
file_format mode = (mode / 4096) % 16

abbrev pub is_dir_mode : ℕ → Bool
is_dir_mode mode = file_format mode == 4

unfoldable pub ftype_of_mode : ℕ → Ftype
ftype_of_mode mode =
    if file_format mode == 8
    then snfreg
    else if is_dir_mode mode
    then snfdir
    else if file_format mode == 6
    then snfblk
    else if file_format mode == 2
    then snfchr
    else if file_format mode == 10
    then snflnk
    else snfnon

abbrev set_seconds : Timeval → ℤ → Timeval
set_seconds t s = record t { seconds = s }

-- `attr` is what the structure holds before the call.
unfoldable pub stat_to_fattr : Stat → Fattr → Fattr
unfolding ftype_of_mode
stat_to_fattr st attr = record {
  type = ftype_of_mode st.st_mode;
  mode = u64 st.st_mode;
  nlink = u64 st.st_nlink;
  uid = u64 st.st_uid;
  gid = u64 st.st_gid;
  size = u64 st.st_size;
  rdev = u64 st.st_rdev;
  fsid = u64 st.st_dev;
  fileid = u64 st.st_ino;
  atime = set_seconds attr.atime st.st_atime;
  mtime = set_seconds attr.mtime st.st_mtime;
  ctime = set_seconds attr.ctime st.st_ctime;
}
