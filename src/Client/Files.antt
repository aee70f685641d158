-- ===== src/Client/Files.antt =====
-- The callbacks that read and write files and attributes (lab2/src/client/fuseops.c). A result is
-- what the function returns, and what it stores through its pointers.
use Prim.Native.Nat.{bit_or, min}
use mathlib.Core.List.{map}
use stanford_cs240_sp21_labs.Base.{List, Option, [], if◌then◌else◌, none, not, some, take, ℕ, ◌*◌}
use stanford_cs240_sp21_labs.Base.{◌+◌, ◌-◌, ◌==◌, ◌^◌}
use stanford_cs240_sp21_labs.Base.Bytes.{Bytes, c_str}
use stanford_cs240_sp21_labs.Base.Exec.{err_exit, given, pure, ◌>>=◌}
use stanford_cs240_sp21_labs.Base.Int.{negsuc, pos, ℤ}
use stanford_cs240_sp21_labs.Client.Attr.{fattr_to_stat}
use stanford_cs240_sp21_labs.Client.Path.{lookup}
use stanford_cs240_sp21_labs.Client.Request.{send_request}
use stanford_cs240_sp21_labs.Client.State.{Client, ClientState, eio, getattr_req_size, minus}
use stanford_cs240_sp21_labs.Client.State.{read_req_size, readdir_req_size, setattr_req_size}
use stanford_cs240_sp21_labs.Client.State.{to_int, with_os, write_req_size}
use stanford_cs240_sp21_labs.Platform.{Platform, Stat, enoent}
use stanford_cs240_sp21_labs.Proto.{Fattr, Fhandle, Rep, Snfsentry, Timeval, getattr_args}
use stanford_cs240_sp21_labs.Proto.{getattr_rep, read_args, read_rep, readdir_args, readdir_rep}
use stanford_cs240_sp21_labs.Proto.{setattr_args, setattr_rep, setgid, setmode, setsize, settimes}
use stanford_cs240_sp21_labs.Proto.{setuid, write_args, write_rep}
use stanford_cs240_sp21_labs.Server.Files.{zero_fattr}

-- The parts of a reply that the callbacks read; `send_request` gives no reply of another type.
abbrev attributes_in : Rep → Fattr
attributes_in (getattr_rep a) = a
attributes_in _ = zero_fattr

abbrev entries_in : Rep → List Snfsentry
entries_in (readdir_rep r) = take r.num_entries r.entries
entries_in _ = []

abbrev pub count_in : Rep → ℕ
count_in (read_rep r) = r.count
count_in (write_rep n) = n
count_in _ = 0

abbrev pub payload_in : Rep → Bytes
payload_in (read_rep r) = r.payload
payload_in _ = []

abbrev pub which_in : Rep → ℕ
which_in (setattr_rep n) = n
which_in _ = 0

-- The seconds and nanoseconds of `struct timespec`.
pub record Timespec : Type 0 where
  pub tv_sec : ℤ
  pub tv_nsec : ℤ

abbrev thousand : ℤ → ℤ
thousand (pos n) = pos (n * 1000)
thousand (negsuc n) = negsuc (n * 1000 + 999)

abbrev no_time : Timeval
no_time = record { seconds = pos 0; useconds = pos 0 }

abbrev pub timeval_of : Option Timespec → Timeval
timeval_of none = no_time
timeval_of (some t) = record { seconds = t.tv_sec; useconds = thousand t.tv_nsec }

-- The -1 of `uid_t` and `gid_t`.
abbrev pub no_id : ℕ
no_id = 2 ^ 32 - 1

unfoldable pub owner_bits : ℕ → ℕ → ℕ
owner_bits uid gid =
    let with_uid = if not (uid == no_id) then bit_or 0 setuid else 0 in
    if not (gid == no_id) then bit_or with_uid setgid else with_uid

module _ (P : Platform) (memory : Bytes → Bytes) (state : ClientState) where
  -- The second part is what `stbuf` holds then.
  unfoldable pub snfs_getattr : Bytes → Stat → Client P (ℤ × Stat)
  snfs_getattr path stbuf = do
    found ← lookup P memory state path
    given found (pure (minus enoent, stbuf)) λ handle. do
      answer ← send_request P state (getattr_args (record { fh = handle })) getattr_req_size
      pure (given answer (minus eio, stbuf) (λ r. (pos 0, fattr_to_stat (attributes_in r) stbuf)))

  -- The second part is the list of the names that are given to `filler`, in order.
  unfoldable pub snfs_readdir : Bytes → Client P (ℤ × List Bytes)
  snfs_readdir path = do
    found ← lookup P memory state path
    given found (pure (minus enoent, [])) λ handle. do
      let args = readdir_args (record { dir = handle; count = 256 })
      answer ← send_request P state args readdir_req_size
      pure (given answer (minus eio, []) (λ r. (pos 0, map (λ e. c_str e.filename) (entries_in r))))

  -- The second part is `fi->fh`, which stays as it was if there is an error.
  unfoldable pub snfs_open : Bytes → Fhandle → Client P (ℤ × Fhandle)
  snfs_open path fh = do
    found ← lookup P memory state path
    pure (given found (minus enoent, fh) (λ handle. (pos 0, handle)))

  unfoldable pub snfs_opendir : Bytes → Fhandle → Client P (ℤ × Fhandle)
  snfs_opendir path fh = do
    found ← lookup P memory state path
    pure (given found (minus enoent, fh) (λ handle. (pos 0, handle)))

  -- The second part is what is copied to the start of `buf`.
  unfoldable pub snfs_read : Fhandle → ℕ → ℤ → Client P (ℤ × Bytes)
  snfs_read fh count offset = do
    let args = read_args (record { file = fh; offset = offset; count = count })
    answer ← send_request P state args read_req_size
    pure (
        given answer (minus eio, [])
          (λ r.
            let to_copy = min (count_in r) count in (to_int to_copy, take to_copy (payload_in r))))

  -- `buf` holds at least `count` bytes.
  unfoldable pub snfs_write : Fhandle → Bytes → ℕ → ℤ → Client P ℤ
  snfs_write fh buf count offset = do
    let request_size = write_req_size + count
    room ← with_os (P.os.malloc request_size)
    if not room then err_exit else do
      let args =
          write_args
            (record { file = fh; offset = offset; count = count; payload = take count buf })
      answer ← send_request P state args request_size
      pure (given answer (minus eio) (λ r. to_int (count_in r)))

  unfoldable pub snfs_setattr :
      Bytes → ℕ → ℤ → ℕ → ℕ → ℕ → Option (Timespec × Timespec) → Client P ℤ
  snfs_setattr path which size mode uid gid tv = do
    found ← lookup P memory state path
    given found (pure (minus enoent)) λ handle. do
      let args = setattr_args (record {
        file = handle;
        which = which;
        mode = mode;
        uid = uid;
        gid = gid;
        size = size;
        atime = timeval_of (given tv none (λ t. some t.0));
        mtime = timeval_of (given tv none (λ t. some t.1));
      })
      answer ← send_request P state args setattr_req_size
      pure (given answer (minus eio) (λ r. if which_in r == which then pos 0 else minus 1))

  unfoldable pub snfs_truncate : Bytes → ℤ → Client P ℤ
  snfs_truncate path size = snfs_setattr path setsize size 0 0 0 none

  unfoldable pub snfs_chmod : Bytes → ℕ → Client P ℤ
  snfs_chmod path mode = snfs_setattr path setmode (pos 0) mode 0 0 none

  unfoldable pub snfs_chown : Bytes → ℕ → ℕ → Client P ℤ
  snfs_chown path uid gid = snfs_setattr path (owner_bits uid gid) (pos 0) 0 uid gid none

  unfoldable pub snfs_utimens : Bytes → Timespec → Timespec → Client P ℤ
  snfs_utimens path atime mtime = snfs_setattr path settimes (pos 0) 0 0 0 (some (atime, mtime))
