-- ===== src/Server/Loop.antt =====
-- `serve_loop` and `sigterm_handler` of lab2/src/server/main.c.
use stanford_cs240_sp21_labs.Base.{Bool, false, if◌then◌else◌, leb, suc, true, zero, ℕ}
use stanford_cs240_sp21_labs.Base.Bytes.{terminated}
use stanford_cs240_sp21_labs.Base.Exec.{checked, diverge, exited, gets, pure, returned, ◌>>=◌}
use stanford_cs240_sp21_labs.Base.Exec.{◌>>◌}
use stanford_cs240_sp21_labs.Fhandledb.{destroy_db}
use stanford_cs240_sp21_labs.Platform.{Platform}
use stanford_cs240_sp21_labs.Proto.{Fattr, MsgType, Req, create_args, getattr_args, lookup_args}
use stanford_cs240_sp21_labs.Proto.{mkdir_args, mount_args, noop_args, other_args, read_args}
use stanford_cs240_sp21_labs.Proto.{readdir_args, remove_args, rename_args, req_type}
use stanford_cs240_sp21_labs.Proto.{setattr_args, sizeof_msg_type, write_args}
use stanford_cs240_sp21_labs.Server.Data.{handle_read, handle_write}
use stanford_cs240_sp21_labs.Server.Files.{handle_getattr, handle_lookup, handle_mount}
use stanford_cs240_sp21_labs.Server.Names.{handle_create, handle_mkdir, handle_remove}
use stanford_cs240_sp21_labs.Server.Names.{handle_rename}
use stanford_cs240_sp21_labs.Server.Readdir.{handle_readdir}
use stanford_cs240_sp21_labs.Server.Reply.{handle_noop, handle_unimplemented}
use stanford_cs240_sp21_labs.Server.Setattr.{handle_setattr}
use stanford_cs240_sp21_labs.World.{Server, on_net, set_terminated, sys}

module _ {P : Platform} where
  -- The switch on `req->type`. `stack` is what the stack holds where GETATTR keeps its reply.
  unfoldable pub dispatch : Fattr → ℕ → MsgType → Req → Server P (Unit {0})
  dispatch stack sock msg_type noop_args = handle_noop sock
  dispatch stack sock msg_type mount_args = handle_mount sock
  dispatch stack sock msg_type (getattr_args a) = handle_getattr stack sock a
  dispatch stack sock msg_type (readdir_args a) = handle_readdir sock a
  dispatch stack sock msg_type (lookup_args a) = handle_lookup sock a
  dispatch stack sock msg_type (read_args a) = handle_read sock a
  dispatch stack sock msg_type (write_args a) = handle_write sock a
  dispatch stack sock msg_type (setattr_args a) = handle_setattr sock a
  dispatch stack sock msg_type (create_args a) = handle_create sock a
  dispatch stack sock msg_type (remove_args a) = handle_remove sock a
  dispatch stack sock msg_type (rename_args a) = handle_rename sock a
  dispatch stack sock msg_type (mkdir_args a) = handle_mkdir sock a
  dispatch stack sock msg_type (other_args t) = handle_unimplemented sock msg_type

  -- A call of nanomsg.
  unfoldable pub net_call : {A : Type 0} → (P.net.State → A × P.net.State) → Server P A
  net_call f = on_net (λ s. let (a, s') = f s in (returned a, s'))

  -- The signal, where one has come: `terminated` is set, and nanomsg is shut down.
  unfoldable pub sigterm_handler : Server P (Unit {0})
  unfolding net_call
  sigterm_handler = do set_terminated; net_call (λ s. (tt, P.net.nn_term s))

  unfoldable pub take_signal : Server P (Unit {0})
  take_signal = do raised ← sys P.os.sigterm; if raised then sigterm_handler else pure tt

  -- One round of the loop; the result says whether the loop goes on. A signal is taken at the test
  -- and while the server waits for a message.
  unfoldable pub serve_once : Fattr → ℕ → Server P Bool
  unfolding net_call
  serve_once stack sock = do
    take_signal
    terminated ← gets (λ w. w.terminated)
    if terminated then pure false else do
      take_signal
      received ← net_call (P.net.nn_recv_request sock 0)
      checked received (λ errno. pure false)
          λ message. do
            let req = message.0
            let bytes = message.1
            let msg_type = if leb sizeof_msg_type bytes then req_type req else MsgType.error
            dispatch stack sock msg_type req
            net_call (P.net.nn_shutdown sock 0)
            pure true

  -- The loop and the cleanup behind it, which ends the process. The socket is open and bound.
  unfoldable pub serve_loop : Fattr → ℕ → ℕ → Server P (Unit {0})
  unfolding net_call
  serve_loop stack sock zero = diverge
  serve_loop stack sock (suc rounds) = do
    more ← serve_once stack sock
    let again = serve_loop stack sock rounds
    if more then again else do
      net_call (P.net.nn_shutdown sock 0)
      net_call (P.net.nn_close sock)
      destroy_db P false
      λ w. (exited 0, w)
