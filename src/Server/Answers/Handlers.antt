-- ===== src/Server/Answers/Handlers.antt =====
-- The replies of each handler of lab2/src/server/handlers.c.
use stanford_cs240_sp21_labs.Base.{Bool, List, inl, refl, suc, zero, ℕ}
use stanford_cs240_sp21_labs.Base.Bytes.{Bytes}
use stanford_cs240_sp21_labs.Base.Exec.{Sys}
use stanford_cs240_sp21_labs.Base.Exec.Keeps.{Keeps, Keeps-bind, Keeps-checked, Keeps-given}
use stanford_cs240_sp21_labs.Base.Exec.Keeps.{Keeps-pure}
use stanford_cs240_sp21_labs.Fhandledb.Laws.{entries}
use stanford_cs240_sp21_labs.Platform.{Platform}
use stanford_cs240_sp21_labs.Proto.{CreateArgs, Fattr, GetattrArgs, LookupArgs, MkdirArgs}
use stanford_cs240_sp21_labs.Proto.{MsgType, ReadArgs, ReaddirArgs, RemoveArgs, RenameArgs}
use stanford_cs240_sp21_labs.Proto.{SetattrArgs, SnfsError, Snfsentry, WriteArgs, rep_type}
use stanford_cs240_sp21_labs.Server.Answers.{Quiet-close, Replies, Replies-bind, Replies-error}
use stanford_cs240_sp21_labs.Server.Answers.{Replies-noop, Replies-send, Replies-then}
use stanford_cs240_sp21_labs.Server.Answers.{Replies-write, answer_rules}
use stanford_cs240_sp21_labs.Server.Data.{error_and_close, handle_read, handle_write, read_bytes}
use stanford_cs240_sp21_labs.Server.Data.{read_from, read_reply, write_reply, write_to}
use stanford_cs240_sp21_labs.Server.Files.{handle_getattr, handle_lookup, handle_mount, lookup_in}
use stanford_cs240_sp21_labs.Server.Names.{forget, handle_create, handle_mkdir, handle_remove}
use stanford_cs240_sp21_labs.Server.Names.{handle_rename, remove_by}
use stanford_cs240_sp21_labs.Server.Readdir.{handle_readdir, read_entries, readdir_reply}
use stanford_cs240_sp21_labs.Server.Reply.{allocate, handle_noop, handle_unimplemented}
use stanford_cs240_sp21_labs.Server.Setattr.{handle_setattr, set_attribute, set_attributes}
use stanford_cs240_sp21_labs.Server.Setattr.{set_times}
use stanford_cs240_sp21_labs.World.{Sent, Server}
use stanford_cs240_sp21_labs.World.Silent.{Logged, Silent-sys, silent_rules}

module _ {P : Platform} {log : List Sent} where
  Silent-allocate : (n : ℕ) → Keeps (Logged {P = P} log) (allocate n)
  unfolding allocate
  Silent-allocate n = search silent_rules depth 20

module _ {P : Platform} {log : List Sent} where
  Silent-read_entries : (room dir : ℕ) → Keeps (Logged {P = P} log) (read_entries room dir)
  unfolding read_entries
  Silent-read_entries zero dir = search silent_rules depth 20
  Silent-read_entries (suc room) dir = Keeps-bind _ _ (Silent-sys _) (λ next.
      Keeps-checked next _ _ (λ e. Keeps-pure _)
        (λ entry.
          Keeps-given entry _ _ (Keeps-pure _)
            (λ e. Keeps-bind _ _ (Silent-read_entries room dir) (λ rest. Keeps-pure _))))

  Silent-set_attribute :
      (b : Bool) (bit : ℕ) (call : Server P (Sys (Unit {0}))) (n : ℕ)
      → Keeps (Logged {P = P} log) call
      → Keeps (Logged {P = P} log) (set_attribute b bit call n)
  unfolding set_attribute
  Silent-set_attribute b bit call n quiet = search silent_rules depth 20

  Silent-set_times :
      (path : Bytes) (args : SetattrArgs) → Keeps (Logged {P = P} log) (set_times path args)
  unfolding set_times
  Silent-set_times path args = search silent_rules depth 20

  Silent-set_attributes :
      (path : Bytes) (args : SetattrArgs) → Keeps (Logged {P = P} log) (set_attributes path args)
  unfolding set_attributes
  Silent-set_attributes path args =
      search (silent_rules, Silent-set_attribute, Silent-set_times) depth 20

module _ {P : Platform} where
  pub handle_noop-Replies : (sock : ℕ) → Replies {P = P} MsgType.noop (handle_noop sock)
  unfolding handle_noop
  handle_noop-Replies sock = Replies-noop sock

  pub handle_getattr-Replies :
      (stack : Fattr) (sock : ℕ) (args : GetattrArgs)
      → Replies {P = P} MsgType.getattr (handle_getattr stack sock args)
  unfolding handle_getattr
  handle_getattr-Replies stack sock args = search (answer_rules) depth 25

  pub lookup_in-Replies :
      (sock : ℕ) (dir name : Bytes) → Replies {P = P} MsgType.lookup (lookup_in sock dir name)
  unfolding lookup_in
  lookup_in-Replies sock dir name = search (answer_rules, Silent-allocate) depth 25

  pub handle_lookup-Replies :
      (sock : ℕ) (args : LookupArgs) → Replies {P = P} MsgType.lookup (handle_lookup sock args)
  unfolding handle_lookup
  handle_lookup-Replies sock args = search (answer_rules, lookup_in-Replies) depth 25

  pub handle_mount-Replies : (sock : ℕ) → Replies {P = P} MsgType.mount (handle_mount sock)
  unfolding handle_mount
  handle_mount-Replies sock = search (answer_rules) depth 25

  pub handle_create-Replies :
      (sock : ℕ) (args : CreateArgs) → Replies {P = P} MsgType.create (handle_create sock args)
  unfolding handle_create
  handle_create-Replies sock args = search (answer_rules) depth 25

  pub handle_mkdir-Replies :
      (sock : ℕ) (args : MkdirArgs) → Replies {P = P} MsgType.mkdir (handle_mkdir sock args)
  unfolding handle_mkdir
  handle_mkdir-Replies sock args = search (answer_rules) depth 25

  pub handle_rename-Replies :
      (sock : ℕ) (args : RenameArgs) → Replies {P = P} MsgType.rename (handle_rename sock args)
  unfolding handle_rename
  handle_rename-Replies sock args = search (answer_rules) depth 25

  pub forget-Replies : (sock : ℕ) (path : Bytes) → Replies {P = P} MsgType.remove (forget sock path)
  unfolding forget
  forget-Replies sock path = search (answer_rules) depth 25

  remove_by-Replies :
      (sock : ℕ) (path : Bytes) (call : Server P (Sys (Unit {0})))
      → ((log : List Sent) → Keeps (Logged log) call)
      → Replies {P = P} MsgType.remove (remove_by sock path call)
  unfolding remove_by
  remove_by-Replies sock path call quiet = search (answer_rules, forget-Replies) depth 25

  pub handle_remove-Replies :
      (sock : ℕ) (args : RemoveArgs) → Replies {P = P} MsgType.remove (handle_remove sock args)
  unfolding handle_remove
  handle_remove-Replies sock args = search (answer_rules, remove_by-Replies) depth 25

  pub handle_unimplemented-Replies :
      (sock : ℕ) (m t : MsgType) → Replies {P = P} t (handle_unimplemented sock m)
  unfolding handle_unimplemented
  handle_unimplemented-Replies sock m t = search (answer_rules) depth 25

  error_and_close-Replies :
      (sock fd : ℕ) (e : SnfsError) (t : MsgType) → Replies {P = P} t (error_and_close sock fd e)
  unfolding error_and_close
  error_and_close-Replies sock fd e t =
      Replies-then _ _ (Replies-error sock e) (λ _. Quiet-close fd)

  read_reply-Replies :
      (sock fd count : ℕ) (buff : Bytes)
      → Replies {P = P} MsgType.read (read_reply sock fd count buff)
  unfolding read_reply rep_type
  read_reply-Replies sock fd count buff =
      Replies-bind _ _ (λ log. Silent-allocate _)
        (λ _. Replies-then _ _ (Replies-send sock _ _ (inl refl) refl refl) (λ _. Quiet-close fd))

  read_bytes-Replies : (sock fd count : ℕ) → Replies {P = P} MsgType.read (read_bytes sock fd count)
  unfolding read_bytes
  read_bytes-Replies sock fd count =
      search (answer_rules, error_and_close-Replies, read_reply-Replies) depth 25

  read_from-Replies :
      (sock : ℕ) (args : ReadArgs) (size fd : ℕ)
      → Replies {P = P} MsgType.read (read_from sock args size fd)
  unfolding read_from
  read_from-Replies sock args size fd =
      search (answer_rules, error_and_close-Replies, read_reply-Replies, read_bytes-Replies) depth
        25

  pub handle_read-Replies :
      (sock : ℕ) (args : ReadArgs) → Replies {P = P} MsgType.read (handle_read sock args)
  unfolding handle_read
  handle_read-Replies sock args = search (answer_rules, read_from-Replies) depth 25

  write_reply-Replies : (sock fd n : ℕ) → Replies {P = P} MsgType.write (write_reply sock fd n)
  unfolding write_reply
  write_reply-Replies sock fd n = Replies-then _ _ (Replies-write sock n) (λ _. Quiet-close fd)

  write_to-Replies :
      (sock : ℕ) (args : WriteArgs) (fd : ℕ) → Replies {P = P} MsgType.write (write_to sock args fd)
  unfolding write_to
  write_to-Replies sock args fd =
      search (answer_rules, error_and_close-Replies, write_reply-Replies) depth 25

  pub handle_write-Replies :
      (sock : ℕ) (args : WriteArgs) → Replies {P = P} MsgType.write (handle_write sock args)
  unfolding handle_write
  handle_write-Replies sock args = search (answer_rules, write_to-Replies) depth 25

  readdir_reply-Replies :
      (sock : ℕ) (entries : List Snfsentry)
      → Replies {P = P} MsgType.readdir (readdir_reply sock entries)
  unfolding readdir_reply rep_type
  readdir_reply-Replies sock entries =
      Replies-bind _ _ (λ log. Silent-allocate _) (λ _. Replies-send sock _ _ (inl refl) refl refl)

  pub handle_readdir-Replies :
      (sock : ℕ) (args : ReaddirArgs) → Replies {P = P} MsgType.readdir (handle_readdir sock args)
  unfolding handle_readdir
  handle_readdir-Replies sock args =
      search (answer_rules, Silent-read_entries, readdir_reply-Replies) depth 25

  pub handle_setattr-Replies :
      (sock : ℕ) (args : SetattrArgs) → Replies {P = P} MsgType.setattr (handle_setattr sock args)
  unfolding handle_setattr
  handle_setattr-Replies sock args = search (answer_rules, Silent-set_attributes) depth 25
