-- ===== src/Start/Client.antt =====
-- The start of the client: `parse_command_line` and `client_main` of lab2/src/client/main.c.
use stanford_cs240_sp21_labs.Base.{Bool, List, [], false, if◌then◌else◌, not, true, ℕ, ◌++◌, ◌+◌}
use stanford_cs240_sp21_labs.Base.{◌==◌, ◌∷◌}
use stanford_cs240_sp21_labs.Base.Bytes.{Bytes}
use stanford_cs240_sp21_labs.Base.Exec.{Exec, checked, err_exit, given, pure, ◌>>=◌, ◌>>◌}
use stanford_cs240_sp21_labs.Client.State.{Client, with_os}
use stanford_cs240_sp21_labs.Platform.{Platform}
use stanford_cs240_sp21_labs.Start.Options.{Call, Getopt, exit_success, usage_msg_exit}
use stanford_cs240_sp21_labs.Start.Server.{argument}

pub record ClientOptions : Type 0 where
  pub verbose : Bool
  pub fuse_debug : Bool

module _ {S : Type 0} where
  unfoldable pub client_option : Call → ClientOptions → Exec S ClientOptions
  client_option c opts =
      if c.opt == b'd'
      then pure (record opts { fuse_debug = true })
      else if c.opt == b'h'
      then exit_success
      else if c.opt == b'v'
      then pure (record opts { verbose = true })
      else usage_msg_exit

  unfoldable pub client_loop : List Call → ClientOptions → Exec S ClientOptions
  client_loop [] opts = pure opts
  client_loop (c ∷ cs) opts = do opts' ← client_option c opts; client_loop cs opts'

  unfoldable pub parse_command_line : Getopt → Exec S (ClientOptions × ℕ)
  unfolding client_loop
  parse_command_line g = do
    opts ← client_loop g.calls (record { verbose = false; fuse_debug = false })
    pure (opts, g.optind)

-- The text of an option as a string.
abbrev pub text_s : Bytes
text_s = b'-' ∷ b's' ∷ []

abbrev pub text_o : Bytes
text_o = b'-' ∷ b'o' ∷ []

abbrev pub text_d : Bytes
text_d = b'-' ∷ b'd' ∷ []

-- "default_permissions".
abbrev pub default_permissions : Bytes
default_permissions =
    b'd' ∷ b'e' ∷ b'f' ∷ b'a' ∷ b'u' ∷ b'l' ∷ b't' ∷ b'_' ∷ b'p' ∷ b'e' ∷ b'r' ∷ b'm' ∷ b'i' ∷ b's'
    ∷ b's' ∷ b'i' ∷ b'o' ∷ b'n' ∷ b's' ∷ []

-- What the start of the client calls besides the calls of `Os`: `closedir`, `strdup`, which does not
-- fail, and `fuse_main` with its arguments and the URL in the state that it is given.
pub record Mount (P : Platform) : Type 0 where
  pub closedir : ℕ → P.os.State → P.os.State
  pub fuse_main : List Bytes → Bytes → Client P ℕ

-- The arguments of `fuse_main`.
unfoldable pub fuse_arguments : ClientOptions → Bytes → Bytes → List Bytes
fuse_arguments opts prog_name dir_path =
    let fargv = prog_name ∷ dir_path ∷ text_s ∷ text_o ∷ default_permissions ∷ [] in
    if opts.fuse_debug then fargv ++ text_d ∷ [] else fargv

abbrev pub sizeof_client_state : ℕ
sizeof_client_state = 32

module _ {P : Platform} (F : Mount P) where
  unfoldable pub mount_at : ClientOptions → Bytes → Bytes → Bytes → Client P ℕ
  mount_at opts prog_name server_url dir_path = do
    opened ← with_os (P.os.opendir dir_path)
    checked opened (λ errno. usage_msg_exit)
        λ mount_dir. do
          with_os (λ s. (tt, F.closedir mount_dir s))
          F.fuse_main (fuse_arguments opts prog_name dir_path) server_url

  -- `argv` is the command line as `getopt` leaves it, behind the program's name.
  unfoldable pub client_main : Getopt → Bytes → List Bytes → Client P ℕ
  unfolding parse_command_line
  client_main g prog_name argv = do
    allocated ← with_os (P.os.malloc sizeof_client_state)
    if not allocated then err_exit else do
      parsed ← parse_command_line g
      given (argument (prog_name ∷ argv) parsed.1) usage_msg_exit λ server_url.
          given (argument (prog_name ∷ argv) (parsed.1 + 1)) usage_msg_exit
            (mount_at parsed.0 prog_name server_url)
