-- ===== src/Client/Request.antt =====
-- lab2/src/client/request.c, `send_request` of lab2/src/client/fuseops.c, and `snfs_init` and
-- `snfs_destroy` of lab2/src/client/main.c.
use stanford_cs240_sp21_labs.Base.{Option, if◌then◌else◌, none, some, ℕ, ◌==◌}
use stanford_cs240_sp21_labs.Base.Bytes.{Bytes}
use stanford_cs240_sp21_labs.Base.Exec.{Exec, Sys, checked, err_exit, exited, given, pure}
use stanford_cs240_sp21_labs.Base.Exec.{returned, ◌>>=◌, ◌>>◌}
use stanford_cs240_sp21_labs.Client.State.{Client, ClientState, mount_req_size, noop_req_size}
use stanford_cs240_sp21_labs.Client.State.{with_net}
use stanford_cs240_sp21_labs.Comm.{receive_data, send_data}
use stanford_cs240_sp21_labs.Platform.{Platform, nn_dontwait, request}
use stanford_cs240_sp21_labs.Proto.{Fhandle, MsgType, Rep, Req, error_rep, mount_args, mount_rep}
use stanford_cs240_sp21_labs.Proto.{noop_args, rep_type, req_type}

-- The test of a reply for ERROR.
unfoldable pub not_error : Rep → Option Rep
not_error (error_rep e) = none
not_error rep = some rep

-- The numbers of the enumeration `snfs_msg_type`.
abbrev pub msg_number : MsgType → ℕ
msg_number MsgType.noop = 0
msg_number MsgType.mount = 1
msg_number MsgType.getattr = 2
msg_number MsgType.readdir = 3
msg_number MsgType.lookup = 4
msg_number MsgType.read = 5
msg_number MsgType.write = 6
msg_number MsgType.setattr = 7
msg_number MsgType.create = 8
msg_number MsgType.remove = 9
msg_number MsgType.rename = 10
msg_number MsgType.mkdir = 11
msg_number MsgType.error = 12
msg_number (MsgType.unlisted n) = n

-- The end of the process by SIGABRT.
abbrev abort : {S A : Type 0} → Exec S A
abort s = (exited 134, s)

module _ (P : Platform) where
  -- `nn_shutdown`, whose result is not looked at.
  pub disconnect : ℕ → ℕ → Client P (Unit {0})
  disconnect sock endpoint = do
    with_net (λ s. let (r, s') = P.net.nn_shutdown sock endpoint s in (returned r, s'))
    pure tt

  -- `none` where the function returns NULL.
  unfoldable pub snfs_req_rep_f : ℕ → Bytes → Req → ℕ → ℕ → Client P (Option Rep)
  unfolding disconnect
  snfs_req_rep_f sock url req size flags = do
    connected ← with_net (λ s. let (r, s') = P.net.nn_connect sock url s in (returned r, s'))
    checked connected (λ errno. pure none)
        λ endpoint. do
          sent ← with_net (send_data P.net P.rounds sock (request req) size flags)
          given sent (do disconnect sock endpoint; pure none)
              λ bytes. do
                received ← with_net (receive_data P.net P.rounds sock flags)
                disconnect sock endpoint
                pure (given received none (λ message. not_error message.0))

  unfoldable pub snfs_req_rep : ℕ → Bytes → Req → ℕ → Client P (Option Rep)
  snfs_req_rep sock url req size = snfs_req_rep_f sock url req size 0

  unfoldable pub test_connection : ℕ → Bytes → Client P (Unit {0})
  test_connection sock url = do
    rep ← snfs_req_rep_f sock url noop_args noop_req_size nn_dontwait
    given rep err_exit λ r. do
      rep2 ← snfs_req_rep sock url noop_args noop_req_size
      given rep2 err_exit (λ r2. pure tt)

  -- The type of the reply is not looked at. `word` is what the first eight bytes of the content of a
  -- reply of another type are as a number.
  unfoldable pub mount_root : (Rep → ℕ) → Rep → Fhandle
  mount_root word (mount_rep h) = h
  mount_root word rep = word rep

  unfoldable pub server_mount : (Rep → ℕ) → ℕ → Bytes → Client P (Option Fhandle)
  server_mount word sock url = do
    answer ← snfs_req_rep sock url mount_args mount_req_size
    pure (given answer none (λ r. some (mount_root word r)))

  -- `snfs_init` with its socket.
  unfoldable pub mount_on : (Rep → ℕ) → ℕ → Bytes → Client P ClientState
  mount_on word sock url = do
    test_connection sock url
    mounted ← server_mount word sock url
    given mounted err_exit
        λ root. pure (record { server_url = url; server_sock = sock; root_fhandle = root })

  -- `nn_socket` is given. If it fails, the assertion on the socket in `snfs_req_rep_f` does, which
  -- ends the process by a signal.
  unfoldable pub snfs_init :
      (P.net.State → Sys ℕ × P.net.State) → (Rep → ℕ) → Bytes → Client P ClientState
  snfs_init nn_socket word url = do
    opened ← with_net (λ s. let (r, s') = nn_socket s in (returned r, s'))
    checked opened (λ errno. abort) (λ sock. mount_on word sock url)

  unfoldable pub snfs_destroy : ClientState → Client P (Unit {0})
  snfs_destroy state = do
    with_net (λ s. let (r, s') = P.net.nn_close state.server_sock s in (returned r, s'))
    pure tt

  -- A reply of another type than the request counts as none.
  unfoldable pub send_request : ClientState → Req → ℕ → Client P (Option Rep)
  send_request state req size = do
    answer ← snfs_req_rep_f state.server_sock state.server_url req size nn_dontwait
    pure (
        given answer none
          (λ r. if msg_number (rep_type r) == msg_number (req_type req) then some r else none))
