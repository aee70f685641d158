-- ===== src/Start/Options.antt =====
-- What `getopt` gives to `parse_command_line` of lab2/src/server/main.c and of
-- lab2/src/client/main.c, and the ways in which these end the process.
use stanford_cs240_sp21_labs.Base.{Bool, List, ℕ}
use stanford_cs240_sp21_labs.Base.Bytes.{Bytes}
use stanford_cs240_sp21_labs.Base.Exec.{Exec, exited}

-- What one call of `getopt` gives: the option, `optarg` and `optopt`, and whether `errno` is ERANGE
-- behind it.
pub record Call : Type 0 where
  pub opt : ℕ
  pub optarg : Bytes
  pub optopt : ℕ
  pub erange : Bool

-- `getopt` on a command line: its calls up to the one that gives -1, and `optind` then.
pub record Getopt : Type 0 where
  pub calls : List Call
  pub optind : ℕ

-- `usage_msg_exit`, and `exit` behind the help.
module _ {ℓ} {S A : Type ℓ} where
  abbrev pub usage_msg_exit : Exec S A
  usage_msg_exit s = (exited 1, s)

  abbrev pub exit_success : Exec S A
  exit_success s = (exited 0, s)
