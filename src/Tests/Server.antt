-- ===== src/Tests/Server.antt =====
-- The theorems of the server at concrete requests, on the machine of `Machine`.
use stanford_cs240_sp21_labs.Base.{List, [], arith, refl}
use stanford_cs240_sp21_labs.Base.{◌+◌, ◌^◌, ◌∷◌}
use stanford_cs240_sp21_labs.Base.Bytes.{Bytes, NoNul}
use stanford_cs240_sp21_labs.Base.Exec.Post.{Post}
use stanford_cs240_sp21_labs.Base.Int.{pos}
use stanford_cs240_sp21_labs.Fhandledb.{name_remove}
use stanford_cs240_sp21_labs.Fhandledb.Entries.{IsHandleDb}
use stanford_cs240_sp21_labs.Fhandledb.Laws.{entries}
use stanford_cs240_sp21_labs.Fhandledb.Remove.{Removed, name_remove-Post}
use stanford_cs240_sp21_labs.Proto.{Fhandle, MsgType, ReadArgs, RenameArgs, Req, mount_args}
use stanford_cs240_sp21_labs.Proto.{read_args}
use stanford_cs240_sp21_labs.Server.Files.{zero_fattr}
use stanford_cs240_sp21_labs.Server.Leads.{Leads}
use stanford_cs240_sp21_labs.Server.Loop.{dispatch, serve_once}
use stanford_cs240_sp21_labs.Server.Readdir.{handle_readdir}
use stanford_cs240_sp21_labs.Server.Says.{Says}
use stanford_cs240_sp21_labs.Server.Says.Readdir.{IsReaddirAnswer, handle_readdir-Says}
use stanford_cs240_sp21_labs.Server.Unknown.{Refused, dispatch-Refused, req_handle}
use stanford_cs240_sp21_labs.Tests.Machine.{booted}
use stanford_cs240_sp21_labs.Tests.Machine.{machine, table-IsLawfulDb, table_get}
use stanford_cs240_sp21_labs.World.{World}

-- The path `/a`, and an empty database, which is paired.
abbrev path_a : Bytes
path_a = b'/' ∷ b'a' ∷ []

path_a-NoNul : NoNul path_a
path_a-NoNul = (omega arith, (omega arith, tt))

empty_IsHandleDb : (requests : List Req) → IsHandleDb (entries (booted requests))
unfolding table_get
empty_IsHandleDb requests = record { kinds = λ k v e. cc; back = λ k v e. cc }

-- A mount and a lookup of `/a`, and the state behind the first round.
abbrev mount_first : World machine
mount_first = booted (mount_args ∷ [])

abbrev mounted : World machine
mounted = (serve_once zero_fattr 3 mount_first).1

name_remove-Post_example :
    Post (Removed {P = machine} (booted []) path_a) (name_remove machine path_a (booted []))
name_remove-Post_example =
    name_remove-Post {P = machine} table-IsLawfulDb (booted []) path_a path_a-NoNul
      (empty_IsHandleDb [])

-- A READ of more bytes than the file has, and a READDIR.
abbrev read_a : ReadArgs
read_a = record { file = 7; offset = pos 0; count = 9 }

handle_readdir-Says_example :
    Says {P = machine} (IsReaddirAnswer 2) (handle_readdir 3 (record { dir = 7; count = 2 }))
handle_readdir-Says_example = handle_readdir-Says {P = machine} 3 (record { dir = 7; count = 2 })

-- A READ for a handle on an empty database.
dispatch-Refused_example :
    Post
      (λ _ t. Refused {P = machine} (booted []) t)
      (dispatch zero_fattr 3 MsgType.read (read_args read_a) (booted []))
unfolding req_handle table_get
dispatch-Refused_example =
    dispatch-Refused {P = machine} zero_fattr 3 MsgType.read (read_args read_a) 7 (booted [])
      table-IsLawfulDb refl refl

-- The root has this handle after the mount; it is renamed to another path, and to its own.
abbrev root_handle : Fhandle
root_handle = 2 ^ 63 + 1

abbrev to_b : RenameArgs
to_b = record { fh = root_handle; filename = b'/' ∷ b'b' ∷ 0 ∷ [] }

abbrev to_itself : RenameArgs
to_itself = record { fh = root_handle; filename = b'/' ∷ 0 ∷ [] }
