-- ===== src/Server/Handles/Run.antt =====
-- The switch and the loop of lab2/src/server/main.c, and the pairing of the database of handles
-- over the runs of the server.
use stanford_cs240_sp21_labs.Base.{arith, false, true, ℕ, ◌+◌, ◌≡◌}
use stanford_cs240_sp21_labs.Base.Exec.{returned}
use stanford_cs240_sp21_labs.Base.Exec.Post.{Post}
use stanford_cs240_sp21_labs.Base.Exec.Preserves.{Preserves, Preserves-bind, Preserves-checked}
use stanford_cs240_sp21_labs.Base.Exec.Preserves.{Preserves-gets, Preserves-if, Preserves-pure}
use stanford_cs240_sp21_labs.Platform.{Platform}
use stanford_cs240_sp21_labs.Platform.Laws.{DrawsHandles, IsLawfulDb}
use stanford_cs240_sp21_labs.Proto.{Fattr, MsgType, Req, SnfsError, create_args, getattr_args}
use stanford_cs240_sp21_labs.Proto.{lookup_args, mkdir_args, mount_args, noop_args, other_args}
use stanford_cs240_sp21_labs.Proto.{read_args, readdir_args, remove_args, rename_args}
use stanford_cs240_sp21_labs.Proto.{setattr_args, write_args}
use stanford_cs240_sp21_labs.Server.Files.{handle_mount}
use stanford_cs240_sp21_labs.Server.Handles.{Handles-error, Handles-name, Handles-on_net}
use stanford_cs240_sp21_labs.Server.Handles.{Handles-reply, Handles-sys, HasHandleDb}
use stanford_cs240_sp21_labs.Server.Handles.{handles_rules}
use stanford_cs240_sp21_labs.Server.Handles.Handlers.{Handles-handle_create}
use stanford_cs240_sp21_labs.Server.Handles.Handlers.{Handles-handle_getattr}
use stanford_cs240_sp21_labs.Server.Handles.Handlers.{Handles-handle_lookup, Handles-handle_mkdir}
use stanford_cs240_sp21_labs.Server.Handles.Handlers.{Handles-handle_read, Handles-handle_readdir}
use stanford_cs240_sp21_labs.Server.Handles.Handlers.{Handles-handle_remove}
use stanford_cs240_sp21_labs.Server.Handles.Handlers.{Handles-handle_rename}
use stanford_cs240_sp21_labs.Server.Handles.Handlers.{Handles-handle_setattr}
use stanford_cs240_sp21_labs.Server.Handles.Handlers.{Handles-handle_write}
use stanford_cs240_sp21_labs.Server.Loop.{dispatch, serve_once, sigterm_handler, take_signal}
use stanford_cs240_sp21_labs.Server.Reply.{handle_noop, handle_unimplemented}
use stanford_cs240_sp21_labs.World.{World, set_terminated}

module _ {P : Platform} (D : IsLawfulDb P.database) (R : DrawsHandles P.os) where
  -- If the database is lawful, and no handle that is drawn ends in a zero byte: whatever the
  -- request, a handler that returns leaves the database paired, if it was paired before.
  pub Handles-dispatch :
      (stack : Fattr) (sock : ℕ) (msg_type : MsgType) (req : Req)
      → Preserves (HasHandleDb {P = P}) (dispatch stack sock msg_type req)
  unfolding dispatch handle_noop handle_mount handle_unimplemented
  Handles-dispatch stack sock m noop_args = search handles_rules
  Handles-dispatch stack sock m mount_args =
      Preserves-bind _ _ (Handles-name D R _ (omega arith, tt)) (λ root. Handles-reply sock _ _)
  Handles-dispatch stack sock m (getattr_args a) = Handles-handle_getattr D R stack sock a
  Handles-dispatch stack sock m (readdir_args a) = Handles-handle_readdir D R sock a
  Handles-dispatch stack sock m (lookup_args a) = Handles-handle_lookup D R sock a
  Handles-dispatch stack sock m (read_args a) = Handles-handle_read D R sock a
  Handles-dispatch stack sock m (write_args a) = Handles-handle_write D R sock a
  Handles-dispatch stack sock m (setattr_args a) = Handles-handle_setattr D R sock a
  Handles-dispatch stack sock m (create_args a) = Handles-handle_create D R sock a
  Handles-dispatch stack sock m (remove_args a) = Handles-handle_remove D R sock a
  Handles-dispatch stack sock m (rename_args a) = Handles-handle_rename D R sock a
  Handles-dispatch stack sock m (mkdir_args a) = Handles-handle_mkdir D R sock a
  Handles-dispatch stack sock m (other_args t) = Handles-error sock SnfsError.enotimpl

  Handles-set_terminated : Preserves (HasHandleDb {P = P}) set_terminated
  unfolding set_terminated
  Handles-set_terminated = record { at = λ w h. record { db = h.db } }

  Handles-take_signal : Preserves (HasHandleDb {P = P}) take_signal
  unfolding take_signal sigterm_handler
  Handles-take_signal = Preserves-bind _ _ (Handles-sys _) (λ raised.
      Preserves-if raised _ _ (Preserves-bind _ _ Handles-set_terminated (λ _. Handles-on_net _))
        (Preserves-pure tt))

  -- One round of the loop, whatever message or signal comes.
  pub Handles-serve_once :
      (stack : Fattr) (sock : ℕ) → Preserves (HasHandleDb {P = P}) (serve_once stack sock)
  unfolding serve_once
  Handles-serve_once stack sock = Preserves-bind _ _ Handles-take_signal (λ _.
      Preserves-bind _ _ (Preserves-gets _) (λ terminated.
        Preserves-if terminated _ _ (Preserves-pure false) (
          Preserves-bind _ _ Handles-take_signal (λ _.
            Preserves-bind _ _ (Handles-on_net _) (λ received.
              Preserves-checked received _ _ (λ e. Preserves-pure false)
                (λ message.
                  Preserves-bind _ _ (Handles-dispatch stack sock _ message.0)
                    (λ _. Preserves-bind _ _ (Handles-on_net _) (λ _. Preserves-pure true))))))))

-- `n` rounds of the loop, each of which went on to the next.
pub data Serves {P : Platform} (stack : Fattr) (sock : ℕ) (w : World P) : ℕ → World P → Type 0 where
  start : Serves stack sock w 0 w
  round :
      {n m : ℕ} {t u : World P}
      → Serves stack sock w n t
      → serve_once stack sock t ≡ (returned true, u)
      → m ≡ n + 1
      → Serves stack sock w m u
