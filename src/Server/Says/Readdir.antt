-- ===== src/Server/Says/Readdir.antt =====
-- What a reply to READDIR says (lab2/src/server/handlers.c).
use stanford_cs240_sp21_labs.Base.{All, List, Option, [], arith, length, none, refl, some, suc}
use stanford_cs240_sp21_labs.Base.{true, zero, ℕ, ◌≡◌, ◌≤◌}
use stanford_cs240_sp21_labs.Base.Bytes.{ends_in_nul}
use stanford_cs240_sp21_labs.Base.Exec.{Sys, checked, fail, given, ok, pure, ◌>>=◌}
use stanford_cs240_sp21_labs.Base.Exec.Post.{Post, Post-bind}
use stanford_cs240_sp21_labs.Platform.{Dirent, Platform}
use stanford_cs240_sp21_labs.Proto.{ReaddirArgs, Rep, SnfsError, Snfsentry, error_rep}
use stanford_cs240_sp21_labs.Proto.{max_filename_buf, readdir_rep}
use stanford_cs240_sp21_labs.Server.Buffer.{ends_in_nul-copy_name, length-copy_name}
use stanford_cs240_sp21_labs.Server.Readdir.{cons_entry, entry_of, handle_readdir, read_entries}
use stanford_cs240_sp21_labs.Server.Readdir.{readdir_reply}
use stanford_cs240_sp21_labs.Server.Reply.{handle_error}
use stanford_cs240_sp21_labs.Server.Says.{Says, Says-bind, Says-bind_of, Says-checked, Says-error}
use stanford_cs240_sp21_labs.Server.Says.{Says-given, Says-if, Says-reply}
use stanford_cs240_sp21_labs.World.{Server, World, sys}

-- A name field that is whole and ends in a NUL.
abbrev IsNameField : Snfsentry → Type 0
IsNameField e = (length e.filename ≡ max_filename_buf) × (ends_in_nul e.filename ≡ true)

-- An error, or a READDIR reply to a request for `count` entries: it counts its entries, they are no
-- more than were asked for, and each name fills its field up to a NUL at its end.
abbrev pub IsReaddirAnswer : ℕ → Rep → Type 0
IsReaddirAnswer count (error_rep e) = Unit
IsReaddirAnswer count (readdir_rep r) =
    (r.num_entries ≡ length r.entries) × ((r.num_entries ≤ count) × All IsNameField r.entries)
IsReaddirAnswer count _ = ⊥

-- What the loop over the directory returns, if it does not fail.
abbrev Bounded : ℕ → Sys (List Snfsentry) → Type 0
Bounded room (ok es) = (length es ≤ room) × All IsNameField es
Bounded room (fail e) = Unit

Bounded-cons :
    (room : ℕ) (entry : Dirent) (r : Sys (List Snfsentry))
    → Bounded room r
    → Bounded (suc room) (cons_entry (entry_of entry) r)
unfolding entry_of
Bounded-cons room entry (ok es) (short, names) =
    (omega arith, ((length-copy_name entry.d_name, ends_in_nul-copy_name entry.d_name), names))
Bounded-cons room entry (fail e) h = tt

module _ {P : Platform} where
  -- The ways on from a call of `readdir`.
  next_entry-Bounded :
      (room : ℕ) (rest : Server P (Sys (List Snfsentry))) (r : Sys (Option Dirent)) (w : World P)
      → ((t : World P) → Post (λ es _. Bounded room es) (rest t))
      → Post
          (λ es _. Bounded (suc room) es)
          (checked r
            (λ errno. pure (fail errno))
            (λ entry.
              given entry (pure (ok [])) (λ e. rest >>= λ es. pure (cons_entry (entry_of e) es)))
            w)
  unfolding checked given
  next_entry-Bounded room rest (fail e) w h = tt
  next_entry-Bounded room rest (ok none) w h = (omega arith, tt)
  next_entry-Bounded room rest (ok (some e)) w h =
      Post-bind (λ es _. Bounded room es) (λ es _. Bounded (suc room) es) rest _ w (h w)
        (λ es t b. Bounded-cons room e es b)

  last_entry-Bounded :
      (r : Sys (Option Dirent)) (w : World P)
      → Post
          (λ es _. Bounded 0 es)
          (checked {B = Server P (Sys (List Snfsentry))} r
            (λ errno. pure (fail errno))
            (λ entry. pure (ok []))
            w)
  unfolding checked
  last_entry-Bounded (fail e) w = tt
  last_entry-Bounded (ok o) w = (omega arith, tt)

  read_entries-Bounded :
      (room dir : ℕ) (w : World P) → Post (λ es _. Bounded room es) (read_entries room dir w)
  unfolding read_entries ◌>>=◌ sys
  read_entries-Bounded zero dir w = last_entry-Bounded (P.os.readdir dir w.os).0 _
  read_entries-Bounded (suc room) dir w =
      next_entry-Bounded room (read_entries room dir) (P.os.readdir dir w.os).0 _
        (λ t. read_entries-Bounded room dir t)

module _ {P : Platform} (sock : ℕ) where
  entries-Says :
      (count : ℕ) (r : Sys (List Snfsentry))
      → Bounded count r
      → Says
          (IsReaddirAnswer count)
          (checked r (λ errno. handle_error {P = P} sock SnfsError.einternal) (readdir_reply sock))
  unfolding checked readdir_reply
  entries-Says count (fail e) b = Says-error sock SnfsError.einternal tt
  entries-Says count (ok es) (short, names) =
      Says-bind _ _ (λ _. Says-reply sock _ _ (refl, (short, names)))

  -- A READDIR handler that returns has answered by an error, or by a reply with the number of its
  -- entries, no more of them than were asked for, each of whose names is a C string in a whole field.
  pub handle_readdir-Says :
      (args : ReaddirArgs) → Says (IsReaddirAnswer args.count) (handle_readdir {P = P} sock args)
  unfolding handle_readdir
  handle_readdir-Says args = Says-bind _ _ (λ found.
      Says-given found _ _ (Says-error sock SnfsError.enoent tt) (λ buffer. Says-bind _ _ (λ result.
        Says-checked result _ _ (λ errno. Says-error sock _ tt)
          (λ st _. Says-if _ _ _ (Says-error sock SnfsError.enotdir tt) (
            Says-bind _ _ (λ opened.
              Says-checked opened _ _ (λ errno. Says-error sock _ tt)
                (λ dir _.
                  Says-bind_of (Bounded args.count) _ _ (λ w. read_entries-Bounded args.count dir w)
                    (λ es b. entries-Says args.count es b))))))))
