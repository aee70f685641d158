-- ===== src/Server/Halts/Handlers.antt =====
-- Termination of the handlers of lab2/src/server/handlers.c that make no new handle.
use stanford_cs240_sp21_labs.Base.{Bool, List, none, suc, zero, ℕ, ◌≤◌}
use stanford_cs240_sp21_labs.Base.Bytes.{Bytes}
use stanford_cs240_sp21_labs.Base.Exec.{Sys}
use stanford_cs240_sp21_labs.Comm.{call}
use stanford_cs240_sp21_labs.Comm.Ends.{ClockRuns}
use stanford_cs240_sp21_labs.Platform.{Platform}
use stanford_cs240_sp21_labs.Platform.Laws.{IsLawfulDb}
use stanford_cs240_sp21_labs.Proto.{Fattr, GetattrArgs, ReadArgs, ReaddirArgs, RemoveArgs}
use stanford_cs240_sp21_labs.Proto.{SetattrArgs, Snfsentry, WriteArgs}
use stanford_cs240_sp21_labs.Server.Data.{handle_read, handle_write, read_bytes, read_from}
use stanford_cs240_sp21_labs.Server.Data.{read_reply, write_reply, write_to}
use stanford_cs240_sp21_labs.Server.Files.{handle_getattr}
use stanford_cs240_sp21_labs.Server.Halts.{Halts, Halts-bind, Halts-checked, Halts-given}
use stanford_cs240_sp21_labs.Server.Halts.{Halts-if, Halts-pure, Halts-then, Steps-sys}
use stanford_cs240_sp21_labs.Server.Halts.{halts_rules}
use stanford_cs240_sp21_labs.Server.Halts.Database.{name_remove-Halts}
use stanford_cs240_sp21_labs.Server.Halts.Reply.{Halts-close, Halts-error, Halts-error_and_close}
use stanford_cs240_sp21_labs.Server.Halts.Reply.{Halts-reply, Steps-allocate, called-Halts}
use stanford_cs240_sp21_labs.Server.Halts.Reply.{of_file-Halts}
use stanford_cs240_sp21_labs.Server.Names.{forget, handle_remove, remove_by}
use stanford_cs240_sp21_labs.Server.Readdir.{handle_readdir, read_entries, readdir_reply}
use stanford_cs240_sp21_labs.Server.Reply.{entry_error}
use stanford_cs240_sp21_labs.Server.Setattr.{handle_setattr, set_attribute, set_attributes}
use stanford_cs240_sp21_labs.Server.Setattr.{set_times}
use stanford_cs240_sp21_labs.World.{Server, sys}

module _ {P : Platform} (D : IsLawfulDb P.database) (C : ClockRuns P.net) (enough : 1834 ≤ P.rounds)
    (sock : ℕ) where
  pub handle_getattr-Halts :
      (stack : Fattr) (args : GetattrArgs) → Halts none (handle_getattr {P = P} stack sock args)
  unfolding handle_getattr
  handle_getattr-Halts stack args =
      of_file-Halts C enough sock D _ _
        (λ buffer. called-Halts C enough sock _ _ _ (λ st. Halts-reply C enough sock _ _))

  read_reply-Halts :
      (fd count : ℕ) (buff : Bytes) → Halts none (read_reply {P = P} sock fd count buff)
  unfolding read_reply
  read_reply-Halts fd count buff =
      Halts-bind _ _ (Steps-allocate _)
        (λ _. Halts-close C enough _ fd (Halts-reply C enough sock _ _))

  read_bytes-Halts : (fd count : ℕ) → Halts none (read_bytes {P = P} sock fd count)
  unfolding read_bytes
  read_bytes-Halts fd count =
      search (halts_rules, Halts-error_and_close {P = P} C enough, read_reply-Halts) depth 25

  read_from-Halts :
      (args : ReadArgs) (size fd : ℕ) → Halts none (read_from {P = P} sock args size fd)
  unfolding read_from
  read_from-Halts args size fd =
      search
        (halts_rules, Halts-error_and_close {P = P} C enough, read_bytes-Halts, read_reply-Halts)
        depth 25

  pub handle_read-Halts : (args : ReadArgs) → Halts none (handle_read {P = P} sock args)
  unfolding handle_read
  handle_read-Halts args = of_file-Halts C enough sock D _ _ (λ buffer.
      called-Halts C enough sock _ _ _
        (λ st. called-Halts C enough sock _ _ _ (λ fd. read_from-Halts args _ fd)))

  write_reply-Halts : (fd bytes : ℕ) → Halts none (write_reply {P = P} sock fd bytes)
  unfolding write_reply
  write_reply-Halts fd bytes = Halts-close C enough _ fd (Halts-reply C enough sock _ _)

  write_to-Halts : (args : WriteArgs) (fd : ℕ) → Halts none (write_to {P = P} sock args fd)
  unfolding write_to
  write_to-Halts args fd =
      search (halts_rules, Halts-error_and_close {P = P} C enough, write_reply-Halts) depth 25

  pub handle_write-Halts : (args : WriteArgs) → Halts none (handle_write {P = P} sock args)
  unfolding handle_write
  handle_write-Halts args =
      of_file-Halts C enough sock D _ _
        (λ buffer. called-Halts C enough sock _ _ _ (λ fd. write_to-Halts args fd))

  set_times-Halts : (path : Bytes) (args : SetattrArgs) → Halts none (set_times {P = P} path args)
  unfolding set_times
  set_times-Halts path args = search halts_rules depth 25

  set_attribute-Halts :
      (wanted : Bool) (bit : ℕ) (call : Server P (Sys (Unit {0}))) (which_set : ℕ)
      → Halts none call
      → Halts none (set_attribute wanted bit call which_set)
  unfolding set_attribute
  set_attribute-Halts wanted bit call which_set h =
      Halts-if _ _ _ (Halts-pure _)
        (Halts-then _ _ h (λ r. Halts-checked r _ _ (λ e. Halts-pure _) (λ _. Halts-pure _)))

  set_attributes-Halts :
      (path : Bytes) (args : SetattrArgs) → Halts none (set_attributes {P = P} path args)
  unfolding set_attributes
  set_attributes-Halts path args =
      search (halts_rules, Halts-then, set_attribute-Halts, set_times-Halts) depth 25

  pub handle_setattr-Halts : (args : SetattrArgs) → Halts none (handle_setattr {P = P} sock args)
  unfolding handle_setattr
  handle_setattr-Halts args = of_file-Halts C enough sock D _ _ (λ buffer.
      called-Halts C enough sock _ _ _ (λ st.
        Halts-then _ _ (set_attributes-Halts _ args) (λ which_set. Halts-reply C enough sock _ _)))

  read_entries-Halts : (room dir : ℕ) → Halts none (read_entries {P = P} room dir)
  unfolding read_entries
  read_entries-Halts zero dir = search halts_rules depth 25
  read_entries-Halts (suc room) dir = Halts-bind _ _ (Steps-sys _) (λ next.
      Halts-checked next _ _ (λ e. Halts-pure _)
        (λ entry.
          Halts-given entry _ _ (Halts-pure _)
            (λ e. Halts-then _ _ (read_entries-Halts room dir) (λ rest. Halts-pure _))))

  readdir_reply-Halts : (es : List Snfsentry) → Halts none (readdir_reply {P = P} sock es)
  unfolding readdir_reply
  readdir_reply-Halts es = Halts-bind _ _ (Steps-allocate _) (λ _. Halts-reply C enough sock _ _)

  pub handle_readdir-Halts : (args : ReaddirArgs) → Halts none (handle_readdir {P = P} sock args)
  unfolding handle_readdir
  handle_readdir-Halts args = of_file-Halts C enough sock D _ _ (λ buffer.
      called-Halts C enough sock _ _ _ (λ st. Halts-if _ _ _ (Halts-error C enough sock _) (
        called-Halts C enough sock _ _ _ (λ dir.
          Halts-then _ _ (read_entries-Halts args.count dir) (λ es.
            Halts-checked es _ _ (λ e. Halts-error C enough sock _)
              (λ entries. readdir_reply-Halts entries))))))

  forget-Halts : (path : Bytes) → Halts none (forget {P = P} sock path)
  unfolding forget
  forget-Halts path = Halts-then _ _ (name_remove-Halts path) (λ removed.
      Halts-if removed _ _ (Halts-reply C enough sock _ _) (Halts-error C enough sock _))

  remove_by-Halts :
      (path : Bytes) (f : P.os.State → Sys (Unit {0}) × P.os.State)
      → Halts none (remove_by {P = P} sock path (sys f))
  unfolding remove_by
  remove_by-Halts path f = called-Halts C enough sock f entry_error _ (λ _. forget-Halts path)

  pub handle_remove-Halts : (args : RemoveArgs) → Halts none (handle_remove {P = P} sock args)
  unfolding handle_remove
  handle_remove-Halts args = of_file-Halts C enough sock D _ _ (λ buffer.
      called-Halts C enough sock _ _ _ (λ st.
        Halts-if _ _ _ (remove_by-Halts _ _)
          (Halts-if _ _ _ (Halts-error C enough sock _) (remove_by-Halts _ _))))
