-- ===== src/Client/Path.antt =====
-- The names in a path, the buffer in which a name is sent, and `lookup`
-- (lab2/src/client/fuseops.c).
use stanford_cs240_sp21_labs.Base.{Bool, List, Option, [], if◌then◌else◌, none, some, ℕ, ◌++◌}
use stanford_cs240_sp21_labs.Base.{◌==◌, ◌∷◌}
use stanford_cs240_sp21_labs.Base.Bytes.{Bytes, bytes_eq, terminated}
use stanford_cs240_sp21_labs.Base.Exec.{given, pure, ◌>>=◌}
use stanford_cs240_sp21_labs.Client.Request.{send_request}
use stanford_cs240_sp21_labs.Client.State.{Client, ClientState, lookup_req_size}
use stanford_cs240_sp21_labs.Platform.{Platform}
use stanford_cs240_sp21_labs.Proto.{Fhandle, Rep, create_rep, lookup_args, lookup_rep}
use stanford_cs240_sp21_labs.Server.Readdir.{copy_name}

-- A byte is put before the tokens of what follows it: it starts a token at a delimiter or at the
-- end, and it is part of the first token of the rest otherwise.
abbrev pub grow : ℕ → Bytes → List Bytes → List Bytes
grow b [] ts = (b ∷ []) ∷ ts
grow b (c ∷ rest) [] = (b ∷ []) ∷ []
grow b (c ∷ rest) (t ∷ ts) = if c == b'/' then (b ∷ []) ∷ t ∷ ts else (b ∷ t) ∷ ts

-- The tokens that `strtok(.., "/")` gives one after the other: the runs of other bytes.
unfoldable pub tokens : Bytes → List Bytes
tokens [] = []
tokens (b ∷ rest) = let ts = tokens rest in if b == b'/' then ts else grow b rest ts

-- `memset` of the buffer and `memcpy` of 255 bytes from a string. `memory` gives what lies behind a
-- string, which is copied along with the string if that is shorter.
unfoldable pub name_buffer : (Bytes → Bytes) → Bytes → Bytes
name_buffer memory name = copy_name (terminated name ++ memory name)

abbrev pub is_root : Bytes → Bool
is_root path = bytes_eq path (b'/' ∷ [])

-- The handle in a LOOKUP or CREATE reply; `send_request` gives no other for such a request.
abbrev pub handle_in : Rep → Fhandle
handle_in (lookup_rep r) = r.handle
handle_in (create_rep h) = h
handle_in _ = 0

module _ (P : Platform) (memory : Bytes → Bytes) (state : ClientState) where
  -- The loop over the tokens.
  unfoldable pub lookup_each : Fhandle → List Bytes → Client P (Option Fhandle)
  lookup_each cur_handle [] = pure (some cur_handle)
  lookup_each cur_handle (filename ∷ rest) = do
    let args = lookup_args (record { dir = cur_handle; filename = name_buffer memory filename })
    answer ← send_request P state args lookup_req_size
    given answer (pure none) (λ r. lookup_each (handle_in r) rest)

  unfoldable pub lookup : Bytes → Client P (Option Fhandle)
  lookup path =
      if is_root path
      then pure (some state.root_fhandle)
      else lookup_each state.root_fhandle (tokens path)
