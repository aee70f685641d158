-- ===== src/Start/Server.antt =====
-- The start of the server: lab2/src/server/main.c without the loop.
use stanford_cs240_sp21_labs.Base.{Bool, List, Option, [], false, if◌then◌else◌, none, not, some}
use stanford_cs240_sp21_labs.Base.{suc, true, zero, ℕ, ◌==◌, ◌∷◌}
use stanford_cs240_sp21_labs.Base.Bytes.{Bytes}
use stanford_cs240_sp21_labs.Base.Exec.{Exec, Sys, checked, err_exit, given, pure, ◌>>=◌, ◌>>◌}
use stanford_cs240_sp21_labs.Base.Int.{negsuc, pos, ℤ}
use stanford_cs240_sp21_labs.Fhandledb.{init_db_if_needed}
use stanford_cs240_sp21_labs.Platform.{Platform}
use stanford_cs240_sp21_labs.Proto.{Fattr}
use stanford_cs240_sp21_labs.Server.Loop.{net_call, serve_loop}
use stanford_cs240_sp21_labs.Start.Number.{parse_number, tcp_url}
use stanford_cs240_sp21_labs.Start.Options.{Call, Getopt, exit_success, usage_msg_exit}
use stanford_cs240_sp21_labs.World.{Server, sys}

pub record ServerOptions : Type 0 where
  pub verbose : Bool
  pub port : ℤ

abbrev pub default_port : ℕ
default_port = 2048

abbrev pub is_one : ℤ → Bool
is_one (pos n) = n == 1
is_one (negsuc n) = false

-- `argv[i]`, where `i < argc`.
unfoldable pub argument : List Bytes → ℕ → Option Bytes
argument [] i = none
argument (a ∷ argv) zero = some a
argument (a ∷ argv) (suc i) = argument argv i

module _ {S : Type 0} where
  -- The case of `-p`: the number is stored where one was parsed.
  unfoldable pub set_port : ServerOptions → ℤ × Option ℤ → Exec S ServerOptions
  set_port opts (result, number) =
      if not (is_one result)
      then usage_msg_exit
      else pure (given number opts (λ n. record opts { port = n }))

  -- One round of the loop.
  unfoldable pub server_option : Call → ServerOptions → Exec S ServerOptions
  unfolding set_port
  server_option c opts =
      if c.opt == b'h'
      then exit_success
      else if c.opt == b'v'
      then pure (record opts { verbose = true })
      else if c.opt == b'p'
      then set_port opts (parse_number c.erange c.optarg)
      else usage_msg_exit

  unfoldable pub server_loop : List Call → ServerOptions → Exec S ServerOptions
  server_loop [] opts = pure opts
  server_loop (c ∷ cs) opts = do opts' ← server_option c opts; server_loop cs opts'

  -- The options, and the place of the first argument that is none.
  unfoldable pub parse_command_line : Getopt → Exec S (ServerOptions × ℕ)
  unfolding server_loop
  parse_command_line g = do
    opts ← server_loop g.calls (record { verbose = false; port = pos default_port })
    pure (opts, g.optind)

-- What the start of the server calls besides the calls of `Os` and `Net`.
pub record Boot (P : Platform) : Type 0 where
  pub arc4random_stir : P.os.State → P.os.State
  pub realpath : Bytes → P.os.State → Sys Bytes × P.os.State
  pub chdir : Bytes → P.os.State → Sys (Unit {0}) × P.os.State
  pub chroot : Bytes → P.os.State → Sys (Unit {0}) × P.os.State
  pub sigaction : P.os.State → P.os.State
  pub nn_socket : P.net.State → Sys ℕ × P.net.State
  pub nn_bind : ℕ → Bytes → P.net.State → Sys ℕ × P.net.State

module _ {P : Platform} (B : Boot P) (stack : Fattr) where
  -- `serve_loop` with the opening of its socket.
  unfoldable pub serve_at : Bytes → Server P (Unit {0})
  serve_at url = do
    opened ← net_call B.nn_socket
    checked opened (λ errno. err_exit)
        λ sock. do
          bound ← net_call (B.nn_bind sock url)
          checked bound (λ errno. err_exit) (λ endpoint. serve_loop stack sock P.rounds)

  -- `server_main` from the change of the root directory on.
  unfoldable pub serve_in : ServerOptions → Bytes → Server P (Unit {0})
  serve_in opts path = do
    jailed ← sys (B.chroot path)
    checked jailed (λ errno. err_exit)
        λ _. do init_db_if_needed P; sys (λ s. (tt, B.sigaction s)); serve_at (tcp_url opts.port)

  unfoldable pub move_to : ServerOptions → Bytes → Server P (Unit {0})
  move_to opts path = do
    moved ← sys (B.chdir path)
    checked moved (λ errno. err_exit) (λ _. serve_in opts path)

  unfoldable pub serve_directory : ServerOptions → Bytes → Server P (Unit {0})
  serve_directory opts mount_path = do
    dir ← sys (P.os.opendir mount_path)
    checked dir (λ errno. usage_msg_exit)
        λ mount_dir. do
          sys (λ s. (tt, B.arc4random_stir s))
          full_path ← sys (B.realpath mount_path)
          checked full_path (λ errno. err_exit) (move_to opts)

  -- `argv` is the command line as `getopt` leaves it, the program's name first.
  unfoldable pub server_main : Getopt → List Bytes → Server P (Unit {0})
  server_main g argv = do
    parsed ← parse_command_line g
    given (argument argv parsed.1) usage_msg_exit (serve_directory parsed.0)
