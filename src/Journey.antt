-- ===== src/Journey.antt =====
-- A path from the client to the server: `lookup` of lab2/src/client/fuseops.c cuts it into names and
-- sends each in a buffer, and `handle_lookup` of lab2/src/server/handlers.c puts each behind the path
-- of its directory.
use mathlib.Core.List.{map}
use stanford_cs240_sp21_labs.Base.{All, List, [], ap, arith, false, length, refl, sym, take_all}
use stanford_cs240_sp21_labs.Base.{ℕ, ◌++◌, ◌∙◌, ◌∷◌, ◌≡◌, ◌≤◌}
use stanford_cs240_sp21_labs.Base.Bytes.{Bytes, NoNul, c_str}
use stanford_cs240_sp21_labs.Client.Path.{name_buffer, tokens}
use stanford_cs240_sp21_labs.Client.Tokens.{IsFileName, name_buffer_lem, spell, tokens-spell}
use stanford_cs240_sp21_labs.Proto.{max_filename_length}
use stanford_cs240_sp21_labs.Server.Files.{ends_with_slash, join_path, starts_with_slash}

-- A file name that fits into its buffer.
pub record IsSendable (name : Bytes) : Type 0 where
  pub file_name : IsFileName name
  pub plain : NoNul name
  pub short : length name ≤ max_filename_length

-- The path that a server reaches from a directory by LOOKUP requests for these names, one in the
-- directory that the one before has found.
pub reach : Bytes → List Bytes → Bytes
reach dir [] = dir
reach dir (name ∷ rest) = reach (join_path dir name) rest

append_nil : (s : Bytes) → s ++ [] ≡ s
append_nil [] = refl
append_nil (b ∷ s) = ap (λ l. b ∷ l) (append_nil s)

append_assoc : (s t u : Bytes) → (s ++ t) ++ u ≡ s ++ (t ++ u)
append_assoc [] t u = refl
append_assoc (b ∷ s) t u = ap (λ l. b ∷ l) (append_assoc s t u)

ends_with_slash-append :
    (s : Bytes) (b : ℕ) (t : Bytes) → ends_with_slash (s ++ (b ∷ t)) ≡ ends_with_slash (b ∷ t)
unfolding ends_with_slash
ends_with_slash-append [] b t = refl
ends_with_slash-append (c ∷ []) b t = refl
ends_with_slash-append (c ∷ d ∷ s) b t = ends_with_slash-append (d ∷ s) b t

ends_with_slash-name :
    (b c : ℕ) (name : Bytes) → IsFileName (c ∷ name) → ends_with_slash (b ∷ c ∷ name) ≡ false
unfolding ends_with_slash
ends_with_slash-name b c [] h = ground arith
ends_with_slash-name b c (d ∷ name) h = ends_with_slash-name c d name h.1

-- A name behind a directory other than the root.
join_path-name :
    (dir : Bytes) (c : ℕ) (name : Bytes)
    → IsFileName (c ∷ name)
    → ends_with_slash dir ≡ false
    → join_path dir (c ∷ name) ≡ dir ++ (b'/' ∷ (c ∷ name))
unfolding join_path starts_with_slash
join_path-name dir c name h e = ground arith

reach-spell :
    (dir : Bytes) (names : List Bytes)
    → All IsSendable names
    → ends_with_slash dir ≡ false
    → reach dir names ≡ dir ++ spell names
unfolding reach
reach-spell dir [] h e = sym (append_nil dir)
reach-spell dir ([] ∷ rest) h e = absurd (h.0.file_name)
reach-spell dir ((c ∷ name) ∷ rest) h e = rw (join_path-name dir c name h.0.file_name e) (
    reach-spell (dir ++ (b'/' ∷ (c ∷ name))) rest h.1
      (ends_with_slash-append dir b'/' (c ∷ name) ∙ ends_with_slash-name b'/' c name h.0.file_name)
    ∙ append_assoc dir (b'/' ∷ (c ∷ name)) (spell rest))

-- What the server reads out of the buffers of sendable names are the names.
received-names :
    (memory : Bytes → Bytes) (names : List Bytes)
    → All IsSendable names
    → map (λ n. c_str (name_buffer memory n)) names ≡ names
received-names memory [] h = refl
received-names memory (n ∷ rest) h =
    rw
      (
        (name_buffer_lem memory n h.0.plain).1,
        take_all max_filename_length n h.0.short,
        received-names memory rest h.1,
      )
      refl

sendable-file_names : (names : List Bytes) → All IsSendable names → All IsFileName names
sendable-file_names [] h = tt
sendable-file_names (n ∷ rest) h = (h.0.file_name, sendable-file_names rest h.1)

from_root :
    (c : ℕ) (name : Bytes) (rest : List Bytes)
    → All IsSendable ((c ∷ name) ∷ rest)
    → reach (b'/' ∷ []) ((c ∷ name) ∷ rest) ≡ spell ((c ∷ name) ∷ rest)
unfolding reach join_path ends_with_slash
from_root c name rest h =
    reach-spell (b'/' ∷ (c ∷ name)) rest h.1 (ends_with_slash-name b'/' c name h.0.file_name)

-- For the path of one or more file names that have no NUL and fit into their buffers: the names
-- that the client cuts out of it, sent in their buffers whatever lies behind them in memory, bring
-- the server from its root directory to that very path.
pub reach-tokens :
    (memory : Bytes → Bytes) (name : Bytes) (rest : List Bytes)
    → All IsSendable (name ∷ rest)
    → reach (b'/' ∷ []) (map (λ n. c_str (name_buffer memory n)) (tokens (spell (name ∷ rest))))
      ≡ spell (name ∷ rest)
reach-tokens memory [] rest h = absurd (h.0.file_name)
reach-tokens memory (c ∷ name) rest h =
    rw
      (
        tokens-spell ((c ∷ name) ∷ rest) (sendable-file_names ((c ∷ name) ∷ rest) h),
        received-names memory ((c ∷ name) ∷ rest) h,
      )
      (from_root c name rest h)
