-- ===== src/Proto/Requests.antt =====
-- lab2/include/common/requests.h: the arguments of each request, and the request itself.
use stanford_cs240_sp21_labs.Base.{ℕ}
use stanford_cs240_sp21_labs.Base.Bytes.{Bytes}
use stanford_cs240_sp21_labs.Base.Int.{ℤ}
use stanford_cs240_sp21_labs.Proto.Types.{Fhandle, Timeval, MsgType}

pub record GetattrArgs : Type 0 where
  pub fh : Fhandle

pub record ReadArgs : Type 0 where
  pub file : Fhandle
  pub offset : ℤ
  pub count : ℕ

-- `payload` is the flexible array `data[]`.
pub record WriteArgs : Type 0 where
  pub file : Fhandle
  pub offset : ℤ
  pub count : ℕ
  pub payload : Bytes

pub record ReaddirArgs : Type 0 where
  pub dir : Fhandle
  pub count : ℕ

pub record LookupArgs : Type 0 where
  pub dir : Fhandle
  pub filename : Bytes

pub record SetattrArgs : Type 0 where
  pub file : Fhandle
  pub which : ℕ
  pub mode : ℕ
  pub uid : ℕ
  pub gid : ℕ
  pub size : ℤ
  pub atime : Timeval
  pub mtime : Timeval

pub record CreateArgs : Type 0 where
  pub filename : Bytes
  pub mode : ℕ

pub record RemoveArgs : Type 0 where
  pub fh : Fhandle
  pub is_dir : ℕ

pub record RenameArgs : Type 0 where
  pub fh : Fhandle
  pub filename : Bytes

pub record MkdirArgs : Type 0 where
  pub dirname : Bytes
  pub mode : ℕ

-- `snfs_req`: the type and, of the union, the member that belongs to it. The last constructor is a
-- message whose type number no request has (`ERROR` is one such).
pub data Req : Type 0 where
  noop_args : Req
  mount_args : Req
  getattr_args : GetattrArgs → Req
  readdir_args : ReaddirArgs → Req
  lookup_args : LookupArgs → Req
  read_args : ReadArgs → Req
  write_args : WriteArgs → Req
  setattr_args : SetattrArgs → Req
  create_args : CreateArgs → Req
  remove_args : RemoveArgs → Req
  rename_args : RenameArgs → Req
  mkdir_args : MkdirArgs → Req
  other_args : MsgType → Req

unfoldable pub req_type : Req → MsgType
req_type noop_args = MsgType.noop
req_type mount_args = MsgType.mount
req_type (getattr_args a) = MsgType.getattr
req_type (readdir_args a) = MsgType.readdir
req_type (lookup_args a) = MsgType.lookup
req_type (read_args a) = MsgType.read
req_type (write_args a) = MsgType.write
req_type (setattr_args a) = MsgType.setattr
req_type (create_args a) = MsgType.create
req_type (remove_args a) = MsgType.remove
req_type (rename_args a) = MsgType.rename
req_type (mkdir_args a) = MsgType.mkdir
req_type (other_args t) = t
