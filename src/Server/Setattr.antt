-- ===== src/Server/Setattr.antt =====
-- The handler of SETATTR (lab2/src/server/handlers.c).
use Prim.Native.Nat.{bit_and, bit_or}
use stanford_cs240_sp21_labs.Base.{Bool, if◌then◌else◌, none, not, some, ℕ, ◌%◌, ◌==◌, ◌^◌}
use stanford_cs240_sp21_labs.Base.Bytes.{Bytes, c_str}
use stanford_cs240_sp21_labs.Base.Exec.{Sys, checked, given, ok, pure, ◌>>=◌}
use stanford_cs240_sp21_labs.Fhandledb.{get_file}
use stanford_cs240_sp21_labs.Platform.{Platform}
use stanford_cs240_sp21_labs.Proto.{SetattrArgs, SnfsError, setattr_rep, setattr_size, setgid}
use stanford_cs240_sp21_labs.Proto.{setmode, setsize, settimes, setuid}
use stanford_cs240_sp21_labs.Server.Reply.{handle_error, reply_with, stat_error}
use stanford_cs240_sp21_labs.World.{Server, sys}

-- `which & bit`, as a test.
unfoldable pub flagged : ℕ → ℕ → Bool
flagged which bit = not (bit_and which bit == 0)

-- A conversion to the 32-bit types `mode_t`, `uid_t` and `gid_t`.
abbrev pub u32 : ℕ → ℕ
u32 n = n % 2 ^ 32

module _ {P : Platform} where
  -- One attribute: the call is made if its bit is asked for, and the bit is set in the result if
  -- the call succeeds.
  unfoldable pub set_attribute : Bool → ℕ → Server P (Sys (Unit {0})) → ℕ → Server P ℕ
  set_attribute wanted bit call which_set = if not wanted then pure which_set else do
    result ← call
    checked result (λ errno. pure which_set) (λ _. pure (bit_or which_set bit))

  -- `utimes`, and `utime` if that fails.
  unfoldable pub set_times : Bytes → SetattrArgs → Server P (Sys (Unit {0}))
  set_times file_path args = do
    let atime = args.atime
    let mtime = args.mtime
    result ← sys (P.os.utimes file_path atime.seconds atime.useconds mtime.seconds mtime.useconds)
    checked result (λ errno. sys (P.os.utime file_path atime.seconds mtime.seconds))
        (λ _. pure (ok tt))

  unfoldable pub set_attributes : Bytes → SetattrArgs → Server P ℕ
  set_attributes path args = do
    let which = args.which
    a ← set_attribute (flagged which setmode) setmode (sys (P.os.chmod path (u32 args.mode))) 0
    b ←
        set_attribute (flagged which setuid) setuid
          (sys (P.os.chown path (some (u32 args.uid)) none)) a
    c ←
        set_attribute (flagged which setgid) setgid
          (sys (P.os.chown path none (some (u32 args.gid)))) b
    d ← set_attribute (flagged which setsize) setsize (sys (P.os.truncate path args.size)) c
    set_attribute (flagged which settimes) settimes (set_times path args) d

  unfoldable pub handle_setattr : ℕ → SetattrArgs → Server P (Unit {0})
  handle_setattr sock args = do
    found ← get_file P args.file
    given found (handle_error sock SnfsError.enoent) λ buffer. do
      let file_path = c_str buffer
      result ← sys (P.os.stat file_path)
      checked result (λ errno. handle_error sock (stat_error errno))
          λ st. do
            which_set ← set_attributes file_path args
            reply_with sock (setattr_rep which_set) setattr_size
