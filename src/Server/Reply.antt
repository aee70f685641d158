-- ===== src/Server/Reply.antt =====
-- Sending a reply, the replies that carry no result, and the errors that a failed call is
-- reported by (lab2/src/server/handlers.c).
use stanford_cs240_sp21_labs.Base.{Option, if◌then◌else◌, ℕ, ◌==◌}
use stanford_cs240_sp21_labs.Base.Exec.{err_exit, pure, ◌>>=◌, ◌>>◌}
use stanford_cs240_sp21_labs.Comm.{send_data}
use stanford_cs240_sp21_labs.Platform.{Platform, eacces, enoent, enotdir, nn_dontwait, reply}
use stanford_cs240_sp21_labs.Proto.{MsgType, Rep, SnfsError, error_rep, error_size, noop_rep}
use stanford_cs240_sp21_labs.Proto.{sizeof_msg_type}
use stanford_cs240_sp21_labs.World.{Server, log_sent, on_net, sys}

-- The cases that the handlers make of `errno`.
abbrev pub stat_error : ℕ → SnfsError
stat_error errno = if errno == enoent then SnfsError.enoent else SnfsError.einternal

abbrev pub open_error : ℕ → SnfsError
open_error errno =
    if errno == enoent
    then SnfsError.enoent
    else if errno == eacces
    then SnfsError.eacces
    else SnfsError.einternal

abbrev pub entry_error : ℕ → SnfsError
entry_error errno =
    if errno == enoent
    then SnfsError.enoent
    else if errno == eacces
    then SnfsError.eacces
    else if errno == enotdir
    then SnfsError.enotdir
    else SnfsError.einternal

abbrev pub lookup_error : ℕ → SnfsError
lookup_error errno =
    if errno == enoent
    then SnfsError.enoent
    else if errno == enotdir
    then SnfsError.ebadop
    else SnfsError.einternal

module _ {P : Platform} where
  unfoldable pub send_reply : ℕ → Rep → ℕ → Server P (Option ℕ)
  send_reply sock rep size = do
    delivered ← on_net (send_data P.net P.rounds sock (reply rep) size nn_dontwait)
    log_sent (record { rep = rep; size = size; delivered = delivered })
    pure delivered

  -- A handler only prints a note when the reply could not be sent.
  unfoldable pub reply_with : ℕ → Rep → ℕ → Server P (Unit {0})
  reply_with sock rep size = do send_reply sock rep size; pure tt

  unfoldable pub handle_error : ℕ → SnfsError → Server P (Unit {0})
  handle_error sock error = reply_with sock (error_rep error) error_size

  unfoldable pub handle_noop : ℕ → Server P (Unit {0})
  handle_noop sock = reply_with sock noop_rep sizeof_msg_type

  unfoldable pub handle_unimplemented : ℕ → MsgType → Server P (Unit {0})
  handle_unimplemented sock msg_type = handle_error sock SnfsError.enotimpl

  -- `malloc` and `assert_malloc`.
  unfoldable pub allocate : ℕ → Server P (Unit {0})
  allocate size = do room ← sys (P.os.malloc size); if room then pure tt else err_exit
