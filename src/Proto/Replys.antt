-- ===== src/Proto/Replys.antt =====
-- lab2/include/common/replys.h: the content of each reply, and the reply itself.
use stanford_cs240_sp21_labs.Base.{ℕ, List}
use stanford_cs240_sp21_labs.Base.Bytes.{Bytes}
use stanford_cs240_sp21_labs.Proto.Types.{Fhandle, Fattr, Snfsentry, MsgType, SnfsError}

pub record ReaddirRep : Type 0 where
  pub num_entries : ℕ
  pub entries : List Snfsentry

pub record LookupRep : Type 0 where
  pub handle : Fhandle
  pub attributes : Fattr

-- `payload` is the flexible array `data[]`.
pub record ReadRep : Type 0 where
  pub count : ℕ
  pub eof : ℕ
  pub payload : Bytes

-- `snfs_rep`: the type and, of the union, the member that belongs to it.
pub data Rep : Type 0 where
  noop_rep : Rep
  error_rep : SnfsError → Rep
  getattr_rep : Fattr → Rep
  mount_rep : Fhandle → Rep
  readdir_rep : ReaddirRep → Rep
  lookup_rep : LookupRep → Rep
  read_rep : ReadRep → Rep
  write_rep : ℕ → Rep
  setattr_rep : ℕ → Rep
  create_rep : Fhandle → Rep
  remove_rep : Rep
  rename_rep : Fhandle → Rep
  mkdir_rep : Fhandle → Rep

unfoldable pub rep_type : Rep → MsgType
rep_type noop_rep = MsgType.noop
rep_type (error_rep e) = MsgType.error
rep_type (getattr_rep a) = MsgType.getattr
rep_type (mount_rep h) = MsgType.mount
rep_type (readdir_rep r) = MsgType.readdir
rep_type (lookup_rep r) = MsgType.lookup
rep_type (read_rep r) = MsgType.read
rep_type (write_rep n) = MsgType.write
rep_type (setattr_rep n) = MsgType.setattr
rep_type (create_rep h) = MsgType.create
rep_type remove_rep = MsgType.remove
rep_type (rename_rep h) = MsgType.rename
rep_type (mkdir_rep h) = MsgType.mkdir
