-- ===== src/Client/State.antt =====
-- The client's state and the sizes of requests (lab2/include/client/main.h). The options only
-- choose what is printed.
use stanford_cs240_sp21_labs.Base.{if◌then◌else◌, ltb, suc, zero, ℕ, ◌%◌, ◌*◌, ◌+◌, ◌-◌, ◌^◌}
use stanford_cs240_sp21_labs.Base.Bytes.{Bytes}
use stanford_cs240_sp21_labs.Base.Exec.{Exec, returned}
use stanford_cs240_sp21_labs.Base.Int.{negsuc, pos, ℤ}
use stanford_cs240_sp21_labs.Platform.{Platform}
use stanford_cs240_sp21_labs.Proto.{Fhandle, max_filename_buf, sizeof_msg_type}

pub record ClientState : Type 0 where
  pub server_url : Bytes
  pub server_sock : ℕ
  pub root_fhandle : Fhandle

-- What the client's process calls: the network and the system.
pub record Host (P : Platform) : Type 0 where
  pub net : P.net.State
  pub os : P.os.State

module _ (P : Platform) where
  abbrev pub Client : Type 0 → Type 0
  Client A = Exec (Host P) A

module _ {P : Platform} where
  unfoldable pub with_net : {A : Type 0} → Exec P.net.State A → Client P A
  with_net m w = let (r, s) = m w.net in (r, record w { net = s })

  unfoldable pub with_os : {A : Type 0} → (P.os.State → A × P.os.State) → Client P A
  with_os f w = let (a, s) = f w.os in (returned a, record w { os = s })

-- `snfs_req_size`, one constant for each kind of request.
abbrev pub noop_req_size : ℕ
noop_req_size = sizeof_msg_type

abbrev pub mount_req_size : ℕ
mount_req_size = sizeof_msg_type

abbrev pub getattr_req_size : ℕ
getattr_req_size = sizeof_msg_type + 8

abbrev pub readdir_req_size : ℕ
readdir_req_size = sizeof_msg_type + 16

abbrev pub lookup_req_size : ℕ
lookup_req_size = sizeof_msg_type + (8 + max_filename_buf)

abbrev pub read_req_size : ℕ
read_req_size = sizeof_msg_type + 24

abbrev pub write_req_size : ℕ
write_req_size = sizeof_msg_type + 24

abbrev pub setattr_req_size : ℕ
setattr_req_size = sizeof_msg_type + (6 * 8 + 2 * 16)

-- `mode_t` takes four bytes, and the structures with a last odd byte are filled to eight.
abbrev pub create_req_size : ℕ
create_req_size = sizeof_msg_type + (max_filename_buf + 4)

abbrev pub remove_req_size : ℕ
remove_req_size = sizeof_msg_type + 16

abbrev pub rename_req_size : ℕ
rename_req_size = sizeof_msg_type + (8 + max_filename_buf)

abbrev pub mkdir_req_size : ℕ
mkdir_req_size = sizeof_msg_type + (max_filename_buf + 4)

-- A negative result, `-errno`.
abbrev pub minus : ℕ → ℤ
minus zero = pos 0
minus (suc n) = negsuc n

abbrev pub eio : ℕ
eio = 5

-- A conversion of a `size_t` or a `uint64_t` to `int`.
abbrev pub to_int : ℕ → ℤ
to_int n = let m = n % 2 ^ 32 in if ltb m (2 ^ 31) then pos m else negsuc (2 ^ 32 - 1 - m)
