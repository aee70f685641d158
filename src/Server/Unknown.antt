-- ===== src/Server/Unknown.antt =====
-- Requests with a handle that the server does not know (lab2/src/server/handlers.c).
use stanford_cs240_sp21_labs.Base.{Option, none, refl, some, ℕ, ◌≡◌}
use stanford_cs240_sp21_labs.Base.Bytes.{Bytes}
use stanford_cs240_sp21_labs.Base.Exec.{Exec, fail, given, ◌>>=◌}
use stanford_cs240_sp21_labs.Base.Exec.Keeps.{Keeps, Keeps-bind, Keeps-pure}
use stanford_cs240_sp21_labs.Base.Exec.Post.{Post, Post-and, Post-bind, Post-mono, Post-of_Keeps}
use stanford_cs240_sp21_labs.Fhandledb.{find, get_file, handle_key}
use stanford_cs240_sp21_labs.Fhandledb.Laws.{Found, as_sys, entries, find-Post}
use stanford_cs240_sp21_labs.Platform.{Platform, db_notfound}
use stanford_cs240_sp21_labs.Platform.Laws.{IsLawfulDb}
use stanford_cs240_sp21_labs.Proto.{Fattr, Fhandle, MsgType, Req, SnfsError, create_args}
use stanford_cs240_sp21_labs.Proto.{error_rep, getattr_args, lookup_args, mkdir_args, mount_args}
use stanford_cs240_sp21_labs.Proto.{noop_args, other_args, read_args, readdir_args, remove_args}
use stanford_cs240_sp21_labs.Proto.{rename_args, setattr_args, write_args}
use stanford_cs240_sp21_labs.Server.Data.{handle_read, handle_write}
use stanford_cs240_sp21_labs.Server.Files.{handle_getattr, handle_lookup}
use stanford_cs240_sp21_labs.Server.Halts.Database.{OsIs, OsIs-find}
use stanford_cs240_sp21_labs.Server.Loop.{dispatch}
use stanford_cs240_sp21_labs.Server.Names.{handle_remove, handle_rename}
use stanford_cs240_sp21_labs.Server.Readdir.{handle_readdir}
use stanford_cs240_sp21_labs.Server.Reply.{handle_error, reply_with, send_reply}
use stanford_cs240_sp21_labs.Server.Says.{LastFits, Says-error}
use stanford_cs240_sp21_labs.Server.Setattr.{handle_setattr}
use stanford_cs240_sp21_labs.World.{Sent, Server, World, log_sent, on_net}

-- The handle that a request is about.
unfoldable pub req_handle : Req → Option Fhandle
req_handle (getattr_args a) = some a.fh
req_handle (readdir_args a) = some a.dir
req_handle (lookup_args a) = some a.dir
req_handle (read_args a) = some a.file
req_handle (write_args a) = some a.file
req_handle (setattr_args a) = some a.file
req_handle (remove_args a) = some a.fh
req_handle (rename_args a) = some a.fh
req_handle _ = none

-- The newest reply is the error ENOENT, and the system is in the state in which it was.
abbrev pub Refused : {P : Platform} → World P → World P → Type 0
Refused w t = LastFits (λ r. r ≡ error_rep SnfsError.enoent) t.sent × (t.os ≡ w.os)

module _ {P : Platform} (s : P.os.State) where
  OsIs-on_net : {A : Type 0} (m : Exec P.net.State A) → Keeps (OsIs {P = P} s) (on_net m)
  unfolding on_net
  OsIs-on_net m = record { at = λ w h. record { same = h.same } }

  OsIs-log_sent : (m : Sent) → Keeps (OsIs {P = P} s) (log_sent m)
  unfolding log_sent
  OsIs-log_sent m = record { at = λ w h. record { same = h.same } }

  OsIs-error : (sock : ℕ) (e : SnfsError) → Keeps (OsIs {P = P} s) (handle_error sock e)
  unfolding handle_error reply_with send_reply
  OsIs-error sock e =
      Keeps-bind _ _
        (Keeps-bind _ _ (OsIs-on_net _) (λ d. Keeps-bind _ _ (OsIs-log_sent _) (λ _. Keeps-pure d)))
        (λ d. Keeps-pure tt)

module _ {P : Platform} (sock : ℕ) (w : World P) where
  error-Refused :
      (t : World P) → OsIs w.os t → Post (λ _ u. Refused w u) (handle_error sock SnfsError.enoent t)
  error-Refused t h =
      Post-and (λ _ u. LastFits (λ r. r ≡ error_rep SnfsError.enoent) u.sent) (λ _ u. u.os ≡ w.os)
        (handle_error sock SnfsError.enoent t) ((Says-error sock SnfsError.enoent refl).at t)
        (Post-mono (λ _ u. OsIs w.os u) (λ _ u. u.os ≡ w.os) (handle_error sock SnfsError.enoent t)
          (λ _ u k. k.same)
          (Post-of_Keeps (OsIs w.os) (handle_error sock SnfsError.enoent) t (OsIs-error w.os sock _)
            h))

  -- The two ways on from the search for the handle, of which one is open.
  missing-Refused :
      (h : Fhandle) (a : Option Bytes) (g : Bytes → Server P (Unit {0})) (t : World P)
      → entries w (handle_key h) ≡ fail db_notfound
      → entries w (handle_key h) ≡ as_sys a
      → OsIs w.os t
      → Post (λ _ u. Refused w u) (given a (handle_error sock SnfsError.enoent) g t)
  unfolding given
  missing-Refused h none g t e f k = error-Refused t k
  missing-Refused h (some v) g t e f k = absurd cc (e, f)

  get_file-Refused :
      (h : Fhandle) (g : Bytes → Server P (Unit {0}))
      → IsLawfulDb P.database
      → entries w (handle_key h) ≡ fail db_notfound
      → Post
          (λ _ u. Refused w u)
          ((get_file P h >>= λ found. given found (handle_error sock SnfsError.enoent) g) w)
  unfolding get_file
  get_file-Refused h g D e =
      Post-bind (λ a t. Found w (handle_key h) a t × OsIs w.os t) (λ _ u. Refused w u)
        (find P (handle_key h)) _ w
        (Post-and (Found w (handle_key h)) (λ _ t. OsIs w.os t) (find P (handle_key h) w)
          (find-Post D (handle_key h) w)
          (Post-of_Keeps (OsIs w.os) (find P (handle_key h)) w (OsIs-find w.os _)
            (record { same = refl })))
        (λ a t k. missing-Refused h a g t e k.0.value k.1)

same_handle :
    {P : Platform} (w : World P) (k h : Fhandle)
    → some k ≡ some h
    → entries w (handle_key h) ≡ fail db_notfound
    → entries w (handle_key k) ≡ fail db_notfound
same_handle w k h e f = let same : k ≡ h = cc in rw same f

-- If the database is lawful: a request about a handle that has no entry is answered by ENOENT, if
-- the handler returns, and the system is in the state in which it was.
pub dispatch-Refused :
    {P : Platform} (stack : Fattr) (sock : ℕ) (msg_type : MsgType) (req : Req) (h : Fhandle)
    (w : World P)
    → IsLawfulDb P.database
    → req_handle req ≡ some h
    → entries w (handle_key h) ≡ fail db_notfound
    → Post (λ _ t. Refused w t) (dispatch stack sock msg_type req w)
unfolding dispatch req_handle handle_getattr handle_readdir handle_lookup handle_read handle_write
    handle_setattr handle_remove handle_rename
dispatch-Refused stack sock m (getattr_args a) h w D e f =
    get_file-Refused sock w a.fh _ D (same_handle w a.fh h e f)
dispatch-Refused stack sock m (readdir_args a) h w D e f =
    get_file-Refused sock w a.dir _ D (same_handle w a.dir h e f)
dispatch-Refused stack sock m (lookup_args a) h w D e f =
    get_file-Refused sock w a.dir _ D (same_handle w a.dir h e f)
dispatch-Refused stack sock m (read_args a) h w D e f =
    get_file-Refused sock w a.file _ D (same_handle w a.file h e f)
dispatch-Refused stack sock m (write_args a) h w D e f =
    get_file-Refused sock w a.file _ D (same_handle w a.file h e f)
dispatch-Refused stack sock m (setattr_args a) h w D e f =
    get_file-Refused sock w a.file _ D (same_handle w a.file h e f)
dispatch-Refused stack sock m (remove_args a) h w D e f =
    get_file-Refused sock w a.fh _ D (same_handle w a.fh h e f)
dispatch-Refused stack sock m (rename_args a) h w D e f =
    get_file-Refused sock w a.fh _ D (same_handle w a.fh h e f)
dispatch-Refused stack sock m noop_args h w D e f = absurd cc
dispatch-Refused stack sock m mount_args h w D e f = absurd cc
dispatch-Refused stack sock m (create_args a) h w D e f = absurd cc
dispatch-Refused stack sock m (mkdir_args a) h w D e f = absurd cc
dispatch-Refused stack sock m (other_args t) h w D e f = absurd cc
