-- ===== src/Server/Names.antt =====
-- The handlers of CREATE, REMOVE, RENAME and MKDIR (lab2/src/server/handlers.c).
use stanford_cs240_sp21_labs.Base.{if◌then◌else◌, not, ℕ, ◌==◌}
use stanford_cs240_sp21_labs.Base.Bytes.{Bytes, c_str}
use stanford_cs240_sp21_labs.Base.Exec.{Sys, checked, given, ◌>>=◌}
use stanford_cs240_sp21_labs.Fhandledb.{get_file, name_find_or_insert, name_remove}
use stanford_cs240_sp21_labs.Platform.{Platform}
use stanford_cs240_sp21_labs.Proto.{CreateArgs, MkdirArgs, RemoveArgs, RenameArgs, SnfsError}
use stanford_cs240_sp21_labs.Proto.{create_rep, create_size, mkdir_rep, mkdir_size, remove_rep}
use stanford_cs240_sp21_labs.Proto.{remove_size, rename_rep, rename_size}
use stanford_cs240_sp21_labs.Server.Attr.{is_dir_mode}
use stanford_cs240_sp21_labs.Server.Reply.{entry_error, handle_error, open_error, reply_with}
use stanford_cs240_sp21_labs.Server.Reply.{stat_error}
use stanford_cs240_sp21_labs.World.{Server, sys}

module _ {P : Platform} where
  -- The descriptor that `creat` opens is not closed.
  unfoldable pub handle_create : ℕ → CreateArgs → Server P (Unit {0})
  handle_create sock args = do
    let file_path = c_str args.filename
    created ← sys (P.os.creat file_path args.mode)
    checked created (λ errno. handle_error sock (open_error errno))
        λ fd. do
          handle ← name_find_or_insert P file_path
          reply_with sock (create_rep handle) create_size

  -- The part of the REMOVE handler behind `rmdir` or `unlink`.
  unfoldable pub forget : ℕ → Bytes → Server P (Unit {0})
  forget sock path = do
    removed ← name_remove P path
    if removed
        then reply_with sock remove_rep remove_size
        else handle_error sock SnfsError.einternal

  -- `rmdir` or `unlink`, and the rest.
  unfoldable pub remove_by : ℕ → Bytes → Server P (Sys (Unit {0})) → Server P (Unit {0})
  remove_by sock path call = do
    gone ← call
    checked gone (λ errno. handle_error sock (entry_error errno)) (λ _. forget sock path)

  unfoldable pub handle_remove : ℕ → RemoveArgs → Server P (Unit {0})
  handle_remove sock args = do
    found ← get_file P args.fh
    given found (handle_error sock SnfsError.enoent) λ buffer. do
      let path = c_str buffer
      result ← sys (P.os.stat path)
      checked result (λ errno. handle_error sock (stat_error errno))
          λ st.
            if args.is_dir == 0
            then remove_by sock path (sys (P.os.unlink path))
            else if not (is_dir_mode st.st_mode)
            then handle_error sock SnfsError.enotdir
            else remove_by sock path (sys (P.os.rmdir path))

  unfoldable pub handle_rename : ℕ → RenameArgs → Server P (Unit {0})
  handle_rename sock args = do
    found ← get_file P args.fh
    given found (handle_error sock SnfsError.enoent) λ buffer. do
      let old_path = c_str buffer
      let new_path = c_str args.filename
      moved ← sys (P.os.rename old_path new_path)
      checked moved (λ errno. handle_error sock (open_error errno))
          λ _. do
            handle ← name_find_or_insert P new_path
            removed ← name_remove P old_path
            if removed
                then reply_with sock (rename_rep handle) rename_size
                else handle_error sock SnfsError.einternal

  unfoldable pub handle_mkdir : ℕ → MkdirArgs → Server P (Unit {0})
  handle_mkdir sock args = do
    let dir_path = c_str args.dirname
    made ← sys (P.os.mkdir dir_path args.mode)
    checked made (λ errno. handle_error sock (open_error errno))
        λ _. do
          handle ← name_find_or_insert P dir_path
          reply_with sock (mkdir_rep handle) mkdir_size
