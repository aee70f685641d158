-- ===== src/Proto/Types.antt =====
-- lab2/include/common/ftypes.h: the enumerations and structures that requests and replies share.
use stanford_cs240_sp21_labs.Base.{ℕ}
use stanford_cs240_sp21_labs.Base.Bytes.{Bytes}
use stanford_cs240_sp21_labs.Base.Int.{ℤ}

abbrev pub max_filename_length : ℕ
max_filename_length = 255

abbrev pub max_filename_buf : ℕ
max_filename_buf = 256

-- The bits of `which`.
abbrev pub setmode : ℕ
setmode = 1

abbrev pub setuid : ℕ
setuid = 2

abbrev pub setgid : ℕ
setgid = 4

abbrev pub setsize : ℕ
setsize = 8

abbrev pub settimes : ℕ
settimes = 16

-- A file handle is a `uint64_t`.
abbrev pub Fhandle : Type 0
Fhandle = ℕ

pub record Timeval : Type 0 where
  pub seconds : ℤ
  pub useconds : ℤ

pub record Snfsentry : Type 0 where
  pub fileid : ℕ
  pub filename : Bytes

pub data Ftype : Type 0 where
  snfnon snfreg snfdir snfblk snfchr snflnk : Ftype

pub record Fattr : Type 0 where
  pub type : Ftype
  pub mode : ℕ
  pub nlink : ℕ
  pub uid : ℕ
  pub gid : ℕ
  pub size : ℕ
  pub rdev : ℕ
  pub fsid : ℕ
  pub fileid : ℕ
  pub atime : Timeval
  pub mtime : Timeval
  pub ctime : Timeval

-- `snfs_msg_type`. The four bytes of a message can hold a number that the enumeration does not list.
pub data MsgType : Type 0 where
  noop mount getattr readdir lookup read write setattr create remove rename mkdir error : MsgType
  unlisted : ℕ → MsgType

pub data SnfsError : Type 0 where
  enotimpl ebadop enoent eacces enotdir einternal : SnfsError
  unlisted : ℕ → SnfsError
