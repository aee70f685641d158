-- ===== src/Server/Handles/Handlers.antt =====
-- The handlers of lab2/src/server/handlers.c and the pairing of the database of handles.
use stanford_cs240_sp21_labs.Base.{List, ℕ}
use stanford_cs240_sp21_labs.Base.Bytes.{Bytes, NoNul, c_str-NoNul}
use stanford_cs240_sp21_labs.Base.Exec.{Sys}
use stanford_cs240_sp21_labs.Base.Exec.Preserves.{Preserves, preserves_rules}
use stanford_cs240_sp21_labs.Platform.{Platform}
use stanford_cs240_sp21_labs.Platform.Laws.{DrawsHandles, IsLawfulDb}
use stanford_cs240_sp21_labs.Proto.{CreateArgs, Fattr, GetattrArgs, LookupArgs, MkdirArgs}
use stanford_cs240_sp21_labs.Proto.{ReadArgs, ReaddirArgs, RemoveArgs, RenameArgs, SetattrArgs}
use stanford_cs240_sp21_labs.Proto.{SnfsError, Snfsentry, WriteArgs}
use stanford_cs240_sp21_labs.Server.Data.{error_and_close, handle_read, handle_write, read_bytes}
use stanford_cs240_sp21_labs.Server.Data.{read_from, read_reply, write_reply, write_to}
use stanford_cs240_sp21_labs.Server.Files.{handle_getattr, handle_lookup, lookup_in}
use stanford_cs240_sp21_labs.Server.Handles.{Handles-get_file, Handles-name, Handles-remove}
use stanford_cs240_sp21_labs.Server.Handles.{HasHandleDb, handles_rules, join_path-NoNul}
use stanford_cs240_sp21_labs.Server.Names.{forget, handle_create, handle_mkdir, handle_remove}
use stanford_cs240_sp21_labs.Server.Names.{handle_rename, remove_by}
use stanford_cs240_sp21_labs.Server.Readdir.{handle_readdir, readdir_reply}
use stanford_cs240_sp21_labs.Server.Setattr.{handle_setattr}
use stanford_cs240_sp21_labs.World.{Server}

module _ {P : Platform} (D : IsLawfulDb P.database) (R : DrawsHandles P.os) where
  pub Handles-handle_getattr :
      (stack : Fattr) (sock : ℕ) (args : GetattrArgs)
      → Preserves (HasHandleDb {P = P}) (handle_getattr stack sock args)
  unfolding handle_getattr
  Handles-handle_getattr stack sock args =
      search (preserves_rules, handles_rules, Handles-get_file {P = P} D R) depth 25

  Handles-lookup_in :
      (sock : ℕ) (dir name : Bytes)
      → NoNul dir
      → NoNul name
      → Preserves (HasHandleDb {P = P}) (lookup_in sock dir name)
  unfolding lookup_in
  Handles-lookup_in sock dir name hd hn =
      search (preserves_rules, handles_rules, Handles-name {P = P} D R, join_path-NoNul) depth 25

  pub Handles-handle_lookup :
      (sock : ℕ) (args : LookupArgs) → Preserves (HasHandleDb {P = P}) (handle_lookup sock args)
  unfolding handle_lookup
  Handles-handle_lookup sock args =
      search
        (
          preserves_rules,
          handles_rules,
          Handles-get_file {P = P} D R,
          c_str-NoNul,
          Handles-lookup_in,
        )
        depth 25

  Handles-readdir_reply :
      (sock : ℕ) (es : List Snfsentry) → Preserves (HasHandleDb {P = P}) (readdir_reply sock es)
  unfolding readdir_reply
  Handles-readdir_reply sock es = search (preserves_rules, handles_rules) depth 25

  pub Handles-handle_readdir :
      (sock : ℕ) (args : ReaddirArgs) → Preserves (HasHandleDb {P = P}) (handle_readdir sock args)
  unfolding handle_readdir
  Handles-handle_readdir sock args =
      search (preserves_rules, handles_rules, Handles-get_file {P = P} D R, Handles-readdir_reply)
        depth 25

  Handles-error_and_close :
      (sock fd : ℕ) (e : SnfsError) → Preserves (HasHandleDb {P = P}) (error_and_close sock fd e)
  unfolding error_and_close
  Handles-error_and_close sock fd e = search (preserves_rules, handles_rules) depth 25

  Handles-read_reply :
      (sock fd count : ℕ) (buff : Bytes)
      → Preserves (HasHandleDb {P = P}) (read_reply sock fd count buff)
  unfolding read_reply
  Handles-read_reply sock fd count buff = search (preserves_rules, handles_rules) depth 25

  Handles-read_bytes :
      (sock fd count : ℕ) → Preserves (HasHandleDb {P = P}) (read_bytes sock fd count)
  unfolding read_bytes
  Handles-read_bytes sock fd count =
      search (preserves_rules, handles_rules, Handles-error_and_close, Handles-read_reply) depth 25

  Handles-read_from :
      (sock : ℕ) (args : ReadArgs) (size fd : ℕ)
      → Preserves (HasHandleDb {P = P}) (read_from sock args size fd)
  unfolding read_from
  Handles-read_from sock args size fd =
      search
        (
          preserves_rules, handles_rules, Handles-error_and_close, Handles-read_reply,
          Handles-read_bytes,
        )
        depth 25

  pub Handles-handle_read :
      (sock : ℕ) (args : ReadArgs) → Preserves (HasHandleDb {P = P}) (handle_read sock args)
  unfolding handle_read
  Handles-handle_read sock args =
      search (preserves_rules, handles_rules, Handles-get_file {P = P} D R, Handles-read_from) depth
        25

  Handles-write_reply : (sock fd n : ℕ) → Preserves (HasHandleDb {P = P}) (write_reply sock fd n)
  unfolding write_reply
  Handles-write_reply sock fd n = search (preserves_rules, handles_rules) depth 25

  Handles-write_to :
      (sock : ℕ) (args : WriteArgs) (fd : ℕ)
      → Preserves (HasHandleDb {P = P}) (write_to sock args fd)
  unfolding write_to
  Handles-write_to sock args fd =
      search (preserves_rules, handles_rules, Handles-error_and_close, Handles-write_reply) depth 25

  pub Handles-handle_write :
      (sock : ℕ) (args : WriteArgs) → Preserves (HasHandleDb {P = P}) (handle_write sock args)
  unfolding handle_write
  Handles-handle_write sock args =
      search (preserves_rules, handles_rules, Handles-get_file {P = P} D R, Handles-write_to) depth
        25

  pub Handles-handle_setattr :
      (sock : ℕ) (args : SetattrArgs) → Preserves (HasHandleDb {P = P}) (handle_setattr sock args)
  unfolding handle_setattr
  Handles-handle_setattr sock args =
      search (preserves_rules, handles_rules, Handles-get_file {P = P} D R) depth 25

  pub Handles-handle_create :
      (sock : ℕ) (args : CreateArgs) → Preserves (HasHandleDb {P = P}) (handle_create sock args)
  unfolding handle_create
  Handles-handle_create sock args =
      search (preserves_rules, handles_rules, Handles-name {P = P} D R, c_str-NoNul) depth 25

  pub Handles-handle_mkdir :
      (sock : ℕ) (args : MkdirArgs) → Preserves (HasHandleDb {P = P}) (handle_mkdir sock args)
  unfolding handle_mkdir
  Handles-handle_mkdir sock args =
      search (preserves_rules, handles_rules, Handles-name {P = P} D R, c_str-NoNul) depth 25

  Handles-forget :
      (sock : ℕ) (path : Bytes) → NoNul path → Preserves (HasHandleDb {P = P}) (forget sock path)
  unfolding forget
  Handles-forget sock path hp =
      search (preserves_rules, handles_rules, Handles-remove {P = P} D R) depth 25

  Handles-remove_by :
      (sock : ℕ) (path : Bytes) (call : Server P (Sys (Unit {0})))
      → NoNul path
      → Preserves (HasHandleDb {P = P}) call
      → Preserves (HasHandleDb {P = P}) (remove_by sock path call)
  unfolding remove_by
  Handles-remove_by sock path call hp hc =
      search (preserves_rules, handles_rules, Handles-forget) depth 25

  pub Handles-handle_remove :
      (sock : ℕ) (args : RemoveArgs) → Preserves (HasHandleDb {P = P}) (handle_remove sock args)
  unfolding handle_remove
  Handles-handle_remove sock args =
      search
        (
          preserves_rules,
          handles_rules,
          Handles-get_file {P = P} D R,
          c_str-NoNul,
          Handles-remove_by,
        )
        depth 25

  pub Handles-handle_rename :
      (sock : ℕ) (args : RenameArgs) → Preserves (HasHandleDb {P = P}) (handle_rename sock args)
  unfolding handle_rename
  Handles-handle_rename sock args =
      search
        (
          preserves_rules,
          handles_rules,
          Handles-get_file {P = P} D R,
          Handles-name {P = P} D R,
          Handles-remove {P = P} D R,
          c_str-NoNul,
        )
        depth 25
