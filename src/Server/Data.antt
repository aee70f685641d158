-- ===== src/Server/Data.antt =====
-- The handlers of READ and WRITE (lab2/src/server/handlers.c).
use stanford_cs240_sp21_labs.Base.{Bool, [], if◌then◌else◌, length, ltb, not, take, ℕ, ◌&&◌, ◌+◌}
use stanford_cs240_sp21_labs.Base.{◌^◌}
use stanford_cs240_sp21_labs.Base.Bytes.{Bytes, c_str}
use stanford_cs240_sp21_labs.Base.Exec.{checked, given, pure, ◌>>=◌, ◌>>◌}
use stanford_cs240_sp21_labs.Base.Int.{same_offset}
use stanford_cs240_sp21_labs.Fhandledb.{get_file}
use stanford_cs240_sp21_labs.Platform.{Platform, rdonly, wronly}
use stanford_cs240_sp21_labs.Proto.{ReadArgs, SnfsError, WriteArgs, read_rep, read_size}
use stanford_cs240_sp21_labs.Proto.{write_rep, write_size}
use stanford_cs240_sp21_labs.Server.Reply.{allocate, handle_error, open_error, reply_with}
use stanford_cs240_sp21_labs.Server.Reply.{stat_error}
use stanford_cs240_sp21_labs.World.{Server, sys}

-- `bytes_read < (ssize_t) args->count`, where a count of 2 ^ 63 or more turns negative.
unfoldable pub below_ssize : ℕ → ℕ → Bool
below_ssize n count = ltb count (2 ^ 63) && ltb n count

abbrev pub flag : Bool → ℕ
flag b = if b then 1 else 0

module _ {P : Platform} where
  -- The reply to bytes that were read, and what follows it.
  unfoldable pub read_reply : ℕ → ℕ → ℕ → Bytes → Server P (Unit {0})
  read_reply sock fd count buff = do
    let bytes_read = length buff
    let reply_size = read_size + bytes_read
    allocate reply_size
    let eof = flag (below_ssize bytes_read count)
    reply_with sock (read_rep (record { count = bytes_read; eof = eof; payload = buff })) reply_size
    sys (P.os.close fd)
    pure tt

  -- An error reply, after which the file is closed.
  unfoldable pub error_and_close : ℕ → ℕ → SnfsError → Server P (Unit {0})
  error_and_close sock fd error = do handle_error sock error; sys (P.os.close fd); pure tt

  unfoldable pub read_bytes : ℕ → ℕ → ℕ → Server P (Unit {0})
  read_bytes sock fd count = do
    result ← sys (P.os.read fd count)
    checked result (λ errno. error_and_close sock fd SnfsError.einternal) (read_reply sock fd count)

  -- From `lseek` on. A failed `lseek` is a negative offset.
  unfoldable pub read_from : ℕ → ReadArgs → ℕ → ℕ → Server P (Unit {0})
  read_from sock args file_size fd = do
    moved ← sys (P.os.lseek fd args.offset)
    checked moved (λ errno. error_and_close sock fd SnfsError.einternal)
        λ offset.
          if not (same_offset offset args.offset)
          then error_and_close sock fd SnfsError.ebadop
          else if ltb offset file_size
          then read_bytes sock fd args.count
          else read_reply sock fd args.count []

  unfoldable pub handle_read : ℕ → ReadArgs → Server P (Unit {0})
  handle_read sock args = do
    found ← get_file P args.file
    given found (handle_error sock SnfsError.enoent) λ buffer. do
      let file_path = c_str buffer
      result ← sys (P.os.stat file_path)
      checked result (λ errno. handle_error sock (stat_error errno))
          λ st. do
            opened ← sys (P.os.open_file file_path rdonly)
            checked opened (λ errno. handle_error sock (open_error errno))
                (read_from sock args st.st_size)

  -- The reply to bytes that were written, and what follows it.
  unfoldable pub write_reply : ℕ → ℕ → ℕ → Server P (Unit {0})
  write_reply sock fd bytes = do
    reply_with sock (write_rep bytes) write_size
    sys (P.os.close fd)
    pure tt

  unfoldable pub write_to : ℕ → WriteArgs → ℕ → Server P (Unit {0})
  write_to sock args fd = do
    moved ← sys (P.os.lseek fd args.offset)
    checked moved (λ errno. error_and_close sock fd SnfsError.einternal)
        λ offset.
          if not (same_offset offset args.offset)
          then error_and_close sock fd SnfsError.ebadop
          else do
            result ← sys (P.os.write fd (take args.count args.payload))
            checked result (λ errno. error_and_close sock fd SnfsError.einternal)
                (write_reply sock fd)

  unfoldable pub handle_write : ℕ → WriteArgs → Server P (Unit {0})
  handle_write sock args = do
    found ← get_file P args.file
    given found (handle_error sock SnfsError.enoent) λ buffer. do
      let file_path = c_str buffer
      opened ← sys (P.os.open_file file_path wronly)
      checked opened (λ errno. handle_error sock (stat_error errno)) (write_to sock args)
