-- ===== src/Fhandledb.antt =====
-- lab2/src/server/fhandledb.c: the database of file handles. A handle's eight bytes are the key of
-- its file's name, and the name with its NUL is the key of the eight bytes.
pub mod Entries
pub mod Laws
pub mod Insert
pub mod Remove
use stanford_cs240_sp21_labs.Base.{Bool, Option, false, if◌then◌else◌, none, not, some, suc, take}
use stanford_cs240_sp21_labs.Base.{true, zero, ℕ, ◌==◌, ◌||◌}
use stanford_cs240_sp21_labs.Base.Bytes.{Bytes, from_le, le_bytes, terminated, u64}
use stanford_cs240_sp21_labs.Base.Exec.{checked, diverge, err_exit, gets, given, pure, ◌>>=◌}
use stanford_cs240_sp21_labs.Base.Exec.{◌>>◌}
use stanford_cs240_sp21_labs.Platform.{Platform, db_notfound}
use stanford_cs240_sp21_labs.Proto.{Fhandle}
use stanford_cs240_sp21_labs.World.{Server, on_db, set_dbp, sys}

-- The key of a handle, and the key and the value that a name is.
abbrev pub handle_key : Fhandle → Bytes
handle_key h = le_bytes 8 h

module _ (P : Platform) where
  unfoldable pub init_db_if_needed : Server P Bool
  init_db_if_needed = do
    opened ← gets (λ w. w.dbp)
    if opened then pure false else do
      cerr ← on_db P.database.create
      if not (cerr == 0) then err_exit else do
        oerr ← on_db P.database.open_file
        if not (oerr == 0) then err_exit else do set_dbp true; pure true

  unfoldable pub destroy_db : Bool → Server P Bool
  destroy_db del = do
    opened ← gets (λ w. w.dbp)
    if not opened then pure true else do
      err ← on_db P.database.close
      if not (err == 0) then pure false else do
        set_dbp false
        if not del then pure true else do gone ← on_db P.database.remove_file; pure (gone == 0)

  unfoldable pub find : Bytes → Server P (Option Bytes)
  find key = do
    init_db_if_needed
    value ← gets (λ w. P.database.get w.db key)
    checked value (λ err. if not (err == db_notfound) then err_exit else pure none)
        (λ v. pure (some v))

  -- The second key is as long as a pointer, which is eight bytes.
  unfoldable pub name_remove : Bytes → Server P Bool
  name_remove filename = do
    init_db_if_needed
    handle ← find (terminated filename)
    given handle (pure false) λ value. do
      err ← on_db (λ s. P.database.del s (terminated filename))
      err2 ← on_db (λ s. P.database.del s (take 8 value))
      if not (err == 0) || not (err2 == 0)
          then if not (err == db_notfound) || not (err2 == db_notfound)
            then err_exit
            else pure false
          else pure true

  unfoldable pub insert : Bytes → Bytes → Server P (Unit {0})
  insert key value = do
    init_db_if_needed
    err ← on_db (λ s. P.database.put s key value)
    if not (err == 0) then err_exit else pure tt

  unfoldable pub generate_new_fhandle : ℕ → Server P Fhandle
  generate_new_fhandle zero = diverge
  generate_new_fhandle (suc rounds) = do
    random ← sys P.os.arc4random_u64
    let handle = u64 random
    result ← find (handle_key handle)
    given result (pure handle) (λ _. generate_new_fhandle rounds)

  unfoldable pub new_fhandle : Bytes → Server P Fhandle
  new_fhandle filename = do
    handle ← generate_new_fhandle P.rounds
    insert (handle_key handle) (terminated filename)
    insert (terminated filename) (handle_key handle)
    pure handle

  unfoldable pub name_find_or_insert : Bytes → Server P Fhandle
  name_find_or_insert filename = do
    result ← find (terminated filename)
    given result (new_fhandle filename) (λ value. pure (from_le (take 8 value)))

  -- The whole value that is stored; its readers take the C string in it.
  unfoldable pub get_file : Fhandle → Server P (Option Bytes)
  get_file handle = find (handle_key handle)
