-- ===== src/Server/Readdir.antt =====
-- The handler of READDIR (lab2/src/server/handlers.c).
use stanford_cs240_sp21_labs.Base.{List, [], if◌then◌else◌, length, not, replicate, suc, take}
use stanford_cs240_sp21_labs.Base.{zero, ℕ, ◌*◌, ◌++◌, ◌+◌, ◌-◌, ◌∷◌}
use stanford_cs240_sp21_labs.Base.Bytes.{Bytes, c_str, u64}
use stanford_cs240_sp21_labs.Base.Exec.{Sys, checked, fail, given, ok, pure, ◌>>=◌, ◌>>◌}
use stanford_cs240_sp21_labs.Fhandledb.{get_file}
use stanford_cs240_sp21_labs.Platform.{Dirent, Platform}
use stanford_cs240_sp21_labs.Proto.{ReaddirArgs, SnfsError, Snfsentry, max_filename_buf}
use stanford_cs240_sp21_labs.Proto.{max_filename_length, readdir_rep, readdir_size}
use stanford_cs240_sp21_labs.Proto.{sizeof_snfsentry}
use stanford_cs240_sp21_labs.Server.Attr.{is_dir_mode}
use stanford_cs240_sp21_labs.Server.Reply.{allocate, entry_error, handle_error, reply_with}
use stanford_cs240_sp21_labs.Server.Reply.{stat_error}
use stanford_cs240_sp21_labs.World.{Server, sys}

-- `memset` of the whole buffer, then `memcpy` of all but its last byte.
unfoldable pub copy_name : Bytes → Bytes
copy_name name =
    let front = take max_filename_length name in
    front ++ replicate (max_filename_buf - length front) 0

unfoldable pub entry_of : Dirent → Snfsentry
unfolding copy_name
entry_of entry = record { fileid = u64 entry.d_ino; filename = copy_name entry.d_name }

abbrev pub cons_entry : Snfsentry → Sys (List Snfsentry) → Sys (List Snfsentry)
cons_entry e (ok es) = ok (e ∷ es)
cons_entry e (fail errno) = fail errno

module _ {P : Platform} where
  -- The loop, by the room that is left in `entries`. It asks for the next entry before it looks at
  -- the room, so a full array costs one more call. A failure is seen behind the loop.
  unfoldable pub read_entries : ℕ → ℕ → Server P (Sys (List Snfsentry))
  read_entries zero dir = do
    next ← sys (P.os.readdir dir)
    checked next (λ errno. pure (fail errno)) (λ entry. pure (ok []))
  read_entries (suc room) dir = do
    next ← sys (P.os.readdir dir)
    checked next (λ errno. pure (fail errno))
        λ entry.
          given entry (pure (ok []))
            λ e. do rest ← read_entries room dir; pure (cons_entry (entry_of e) rest)

  -- The reply to a directory that was read. The directory stream is not closed.
  unfoldable pub readdir_reply : ℕ → List Snfsentry → Server P (Unit {0})
  readdir_reply sock entries = do
    let entries_read = length entries
    let reply_size = readdir_size + sizeof_snfsentry * entries_read
    allocate reply_size
    reply_with sock (readdir_rep (record { num_entries = entries_read; entries = entries }))
        reply_size

  unfoldable pub handle_readdir : ℕ → ReaddirArgs → Server P (Unit {0})
  handle_readdir sock args = do
    found ← get_file P args.dir
    given found (handle_error sock SnfsError.enoent) λ buffer. do
      let dir_path = c_str buffer
      result ← sys (P.os.stat dir_path)
      checked result (λ errno. handle_error sock (stat_error errno))
          λ st. if not (is_dir_mode st.st_mode) then handle_error sock SnfsError.enotdir else do
            opened ← sys (P.os.opendir dir_path)
            checked opened (λ errno. handle_error sock (entry_error errno))
                λ dir. do
                  entries ← read_entries args.count dir
                  checked entries (λ errno. handle_error sock SnfsError.einternal)
                      (readdir_reply sock)
