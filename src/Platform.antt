-- ===== src/Platform.antt =====
-- What the programs call and do not implement: the operating system, the Berkeley DB library and
-- nanomsg. Each is a record of operations on a state of its own, with no law; the laws that a
-- theorem needs are records of hypotheses beside it.
pub mod Laws
use stanford_cs240_sp21_labs.Base.{ℕ, Option, Bool}
use stanford_cs240_sp21_labs.Base.Bytes.{Bytes}
use stanford_cs240_sp21_labs.Base.Int.{ℤ}
use stanford_cs240_sp21_labs.Base.Exec.{Sys}
use stanford_cs240_sp21_labs.Proto.{Req, Rep}

-- The error numbers that the code tests for, and nanomsg's ETERM.
abbrev pub enoent : ℕ
enoent = 2

abbrev pub ebadf : ℕ
ebadf = 9

abbrev pub eacces : ℕ
eacces = 13

abbrev pub efault : ℕ
efault = 14

abbrev pub enotdir : ℕ
enotdir = 20

abbrev pub enotsup : ℕ
enotsup = 95

abbrev pub eterm : ℕ
eterm = 156384765

-- Berkeley DB's DB_NOTFOUND is the negative of this number.
abbrev pub db_notfound : ℕ
db_notfound = 30988

abbrev pub nn_dontwait : ℕ
nn_dontwait = 1

-- The fields of `struct stat` that the program reads or writes.
pub record Stat : Type 0 where
  pub st_mode : ℕ
  pub st_nlink : ℕ
  pub st_uid : ℕ
  pub st_gid : ℕ
  pub st_size : ℕ
  pub st_rdev : ℕ
  pub st_dev : ℕ
  pub st_ino : ℕ
  pub st_atime : ℤ
  pub st_mtime : ℤ
  pub st_ctime : ℤ

-- `struct dirent`; `d_name` is the whole array.
pub record Dirent : Type 0 where
  pub d_ino : ℕ
  pub d_name : Bytes

pub data OpenFlag : Type 0 where
  rdonly wronly : OpenFlag

-- System calls. An owner that is absent is the -1 of `chown`. `readdir` gives no entry at the end of
-- the directory, and fails where it returns NULL with `errno` set. The four numbers of `utimes` are
-- the seconds and microseconds of the access time and of the modification time. `sigterm` says whether the signal has been
-- raised since it was asked last.
pub record Os : Type 1 where
  pub State : Type 0
  pub stat : Bytes → State → Sys Stat × State
  pub open_file : Bytes → OpenFlag → State → Sys ℕ × State
  pub creat : Bytes → ℕ → State → Sys ℕ × State
  pub lseek : ℕ → ℤ → State → Sys ℕ × State
  pub read : ℕ → ℕ → State → Sys Bytes × State
  pub write : ℕ → Bytes → State → Sys ℕ × State
  pub close : ℕ → State → Sys (Unit {0}) × State
  pub opendir : Bytes → State → Sys ℕ × State
  pub readdir : ℕ → State → Sys (Option Dirent) × State
  pub chmod : Bytes → ℕ → State → Sys (Unit {0}) × State
  pub chown : Bytes → Option ℕ → Option ℕ → State → Sys (Unit {0}) × State
  pub truncate : Bytes → ℤ → State → Sys (Unit {0}) × State
  pub utimes : Bytes → ℤ → ℤ → ℤ → ℤ → State → Sys (Unit {0}) × State
  pub utime : Bytes → ℤ → ℤ → State → Sys (Unit {0}) × State
  pub unlink : Bytes → State → Sys (Unit {0}) × State
  pub rmdir : Bytes → State → Sys (Unit {0}) × State
  pub rename : Bytes → Bytes → State → Sys (Unit {0}) × State
  pub mkdir : Bytes → ℕ → State → Sys (Unit {0}) × State
  pub malloc : ℕ → State → Bool × State
  pub arc4random_u64 : State → ℕ × State
  pub sigterm : State → Bool × State

-- Berkeley DB. A number is the code that a call returns, 0 for success.
pub record Database : Type 1 where
  pub State : Type 0
  pub create : State → ℕ × State
  pub open_file : State → ℕ × State
  pub close : State → ℕ × State
  pub remove_file : State → ℕ × State
  pub get : State → Bytes → Sys Bytes
  pub put : State → Bytes → Bytes → ℕ × State
  pub del : State → Bytes → ℕ × State

-- A message on a socket.
pub data Packet : Type 0 where
  request : Req → Packet
  reply : Rep → Packet

-- nanomsg, and the clock by which its callers wait. `nn_recv` stands here twice, as its callers read
-- the message: as a request or as a reply. A message is received with its size in bytes.
pub record Net : Type 1 where
  pub State : Type 0
  pub nn_connect : ℕ → Bytes → State → Sys ℕ × State
  pub nn_shutdown : ℕ → ℕ → State → Sys (Unit {0}) × State
  pub nn_send : ℕ → Packet → ℕ → ℕ → State → Sys ℕ × State
  pub nn_recv_request : ℕ → ℕ → State → Sys (Req × ℕ) × State
  pub nn_recv_reply : ℕ → ℕ → State → Sys (Rep × ℕ) × State
  pub nn_close : ℕ → State → Sys (Unit {0}) × State
  pub nn_term : State → State
  pub gettimeofday : State → (ℕ × ℕ) × State
  pub usleep : ℕ → State → State

-- All of it, with the number of rounds that a loop without a bound of its own is given.
pub record Platform : Type 1 where
  pub os : Os
  pub database : Database
  pub net : Net
  pub rounds : ℕ
