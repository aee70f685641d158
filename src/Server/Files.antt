-- ===== src/Server/Files.antt =====
-- The handlers of GETATTR, LOOKUP and MOUNT (lab2/src/server/handlers.c).
use stanford_cs240_sp21_labs.Base.{Bool, [], false, if◌then◌else◌, length, ℕ, ◌++◌, ◌+◌, ◌==◌}
use stanford_cs240_sp21_labs.Base.{◌||◌, ◌∷◌}
use stanford_cs240_sp21_labs.Base.Bytes.{Bytes, c_str}
use stanford_cs240_sp21_labs.Base.Exec.{checked, given, ◌>>=◌, ◌>>◌}
use stanford_cs240_sp21_labs.Base.Int.{pos}
use stanford_cs240_sp21_labs.Fhandledb.{get_file, name_find_or_insert}
use stanford_cs240_sp21_labs.Platform.{Platform}
use stanford_cs240_sp21_labs.Proto.{Fattr, GetattrArgs, LookupArgs, SnfsError, Timeval}
use stanford_cs240_sp21_labs.Proto.{getattr_rep, getattr_size, lookup_rep, lookup_size, mount_rep}
use stanford_cs240_sp21_labs.Proto.{mount_size, snfnon}
use stanford_cs240_sp21_labs.Server.Attr.{is_dir_mode, stat_to_fattr}
use stanford_cs240_sp21_labs.Server.Reply.{allocate, handle_error, lookup_error, reply_with}
use stanford_cs240_sp21_labs.Server.Reply.{stat_error}
use stanford_cs240_sp21_labs.World.{Server, sys}

unfoldable pub ends_with_slash : Bytes → Bool
ends_with_slash [] = false
ends_with_slash (b ∷ []) = b == b'/'
ends_with_slash (b ∷ c ∷ bs) = ends_with_slash (c ∷ bs)

unfoldable pub starts_with_slash : Bytes → Bool
starts_with_slash [] = false
starts_with_slash (b ∷ bs) = b == b'/'

-- The path of a file in a directory. The buffer has room for both, a slash and the NUL.
unfoldable pub join_path : Bytes → Bytes → Bytes
unfolding ends_with_slash starts_with_slash
join_path dir_path filename =
    if ends_with_slash dir_path || starts_with_slash filename
    then dir_path ++ filename
    else dir_path ++ (b'/' ∷ filename)

abbrev zero_timeval : Timeval
zero_timeval = record { seconds = pos 0; useconds = pos 0 }

-- What the rest of a reply holds that an initialiser names in part.
abbrev pub zero_fattr : Fattr
zero_fattr = record {
  type = snfnon;
  mode = 0;
  nlink = 0;
  uid = 0;
  gid = 0;
  size = 0;
  rdev = 0;
  fsid = 0;
  fileid = 0;
  atime = zero_timeval;
  mtime = zero_timeval;
  ctime = zero_timeval;
}

module _ {P : Platform} where
  -- `stack` is what the variable `attributes` holds before it is written.
  unfoldable pub handle_getattr : Fattr → ℕ → GetattrArgs → Server P (Unit {0})
  handle_getattr stack sock args = do
    found ← get_file P args.fh
    given found (handle_error sock SnfsError.enoent) λ buffer. do
      let file_path = c_str buffer
      result ← sys (P.os.stat file_path)
      checked result (λ errno. handle_error sock (stat_error errno))
          λ st. reply_with sock (getattr_rep (stat_to_fattr st stack)) getattr_size

  -- The part of the LOOKUP handler behind the checks of the directory.
  unfoldable pub lookup_in : ℕ → Bytes → Bytes → Server P (Unit {0})
  lookup_in sock dir_path filename = do
    allocate (length dir_path + length filename + 2)
    let file_path = join_path dir_path filename
    result ← sys (P.os.stat file_path)
    checked result (λ errno. handle_error sock (lookup_error errno))
        λ st. do
          handle ← name_find_or_insert P file_path
          let attributes = stat_to_fattr st zero_fattr
          reply_with sock (lookup_rep (record { handle = handle; attributes = attributes }))
              lookup_size

  unfoldable pub handle_lookup : ℕ → LookupArgs → Server P (Unit {0})
  handle_lookup sock args = do
    found ← get_file P args.dir
    given found (handle_error sock SnfsError.enoent) λ buffer. do
      let dir_path = c_str buffer
      result ← sys (P.os.stat dir_path)
      checked result (λ errno. handle_error sock (stat_error errno))
          λ st.
            if is_dir_mode st.st_mode
            then lookup_in sock dir_path (c_str args.filename)
            else handle_error sock SnfsError.enotdir

  unfoldable pub handle_mount : ℕ → Server P (Unit {0})
  handle_mount sock = do
    root ← name_find_or_insert P (b'/' ∷ [])
    reply_with sock (mount_rep root) mount_size
