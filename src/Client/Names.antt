-- ===== src/Client/Names.antt =====
-- The callbacks that create, remove and rename (lab2/src/client/fuseops.c).
use Prim.Native.Nat.{bit_or}
use stanford_cs240_sp21_labs.Base.{if◌then◌else◌, ℕ}
use stanford_cs240_sp21_labs.Base.Bytes.{Bytes}
use stanford_cs240_sp21_labs.Base.Exec.{given, pure, ◌>>=◌}
use stanford_cs240_sp21_labs.Base.Int.{pos, ℤ}
use stanford_cs240_sp21_labs.Client.Path.{handle_in, is_root, lookup, name_buffer}
use stanford_cs240_sp21_labs.Client.Request.{send_request}
use stanford_cs240_sp21_labs.Client.State.{Client, ClientState, create_req_size, minus}
use stanford_cs240_sp21_labs.Client.State.{mkdir_req_size, remove_req_size, rename_req_size}
use stanford_cs240_sp21_labs.Platform.{Platform, enoent}
use stanford_cs240_sp21_labs.Proto.{Fhandle, create_args, mkdir_args, remove_args, rename_args}

-- S_IFDIR, the bit of a directory in a mode.
abbrev s_ifdir : ℕ
s_ifdir = 16384

module _ (P : Platform) (memory : Bytes → Bytes) (state : ClientState) where
  -- The second part is `fi->fh`, which stays as it was if there is an error.
  unfoldable pub snfs_create : Bytes → ℕ → Fhandle → Client P (ℤ × Fhandle)
  snfs_create path mode fh = if is_root path then pure (minus enoent, fh) else do
    let args = create_args (record { filename = name_buffer memory path; mode = mode })
    answer ← send_request P state args create_req_size
    pure (given answer (minus enoent, fh) (λ r. (pos 0, handle_in r)))

  -- `snfs_unlink` and `snfs_rmdir` differ in the flag that they send.
  unfoldable pub remove_with : ℕ → Bytes → Client P ℤ
  remove_with is_dir path = do
    found ← lookup P memory state path
    given found (pure (minus enoent)) λ handle. do
      let args = remove_args (record { fh = handle; is_dir = is_dir })
      answer ← send_request P state args remove_req_size
      pure (given answer (minus enoent) (λ r. pos 0))

  unfoldable pub snfs_unlink : Bytes → Client P ℤ
  snfs_unlink path = remove_with 0 path

  unfoldable pub snfs_rmdir : Bytes → Client P ℤ
  snfs_rmdir path = remove_with 1 path

  unfoldable pub snfs_rename : Bytes → Bytes → Client P ℤ
  snfs_rename oldpath newpath = do
    found ← lookup P memory state oldpath
    given found (pure (minus enoent)) λ handle. do
      let args = rename_args (record { fh = handle; filename = name_buffer memory newpath })
      answer ← send_request P state args rename_req_size
      pure (given answer (minus enoent) (λ r. pos 0))

  unfoldable pub snfs_mkdir : Bytes → ℕ → Client P ℤ
  snfs_mkdir path mode = if is_root path then pure (minus enoent) else do
    let args = mkdir_args (record { dirname = name_buffer memory path; mode = bit_or mode s_ifdir })
    answer ← send_request P state args mkdir_req_size
    pure (given answer (minus enoent) (λ r. pos 0))

  unfoldable pub snfs_release : Bytes → Fhandle → Client P ℤ
  snfs_release path fh = pure (pos 0)

  unfoldable pub snfs_releasedir : Bytes → Fhandle → Client P ℤ
  snfs_releasedir path fh = pure (pos 0)
