-- ===== src/Client/Walk.antt =====
-- `lookup` of lab2/src/client/fuseops.c as a walk through the directories of the server, and the
-- bounds of what `snfs_read` copies.
use Prim.Native.Nat.{min}
use mathlib.Core.Path.{subst}
use stanford_cs240_sp21_labs.Base.{All, Bool-cases, List, Option, [], arith, false, inl, inr}
use stanford_cs240_sp21_labs.Base.{length, length-take, ltb, none, refl, some, take, ℕ, ◌%◌, ◌^◌}
use stanford_cs240_sp21_labs.Base.{◌∷◌, ◌≡◌, ◌≤◌}
use stanford_cs240_sp21_labs.Base.Bytes.{Bytes, bytes_eq}
use stanford_cs240_sp21_labs.Base.Exec.{given, pure}
use stanford_cs240_sp21_labs.Base.Exec.Post.{Post, Post-any, Post-bind}
use stanford_cs240_sp21_labs.Base.Int.{negsuc, pos, ℤ}
use stanford_cs240_sp21_labs.Client.Files.{count_in, payload_in, snfs_read}
use stanford_cs240_sp21_labs.Client.Path.{handle_in, is_root, lookup, lookup_each, name_buffer}
use stanford_cs240_sp21_labs.Client.Request.{send_request}
use stanford_cs240_sp21_labs.Client.State.{ClientState, Host, eio, lookup_req_size, minus}
use stanford_cs240_sp21_labs.Client.State.{read_req_size, to_int}
use stanford_cs240_sp21_labs.Client.Tokens.{IsFileName, spell, tokens-spell}
use stanford_cs240_sp21_labs.Platform.{Platform}
use stanford_cs240_sp21_labs.Proto.{Fhandle, Rep, lookup_args}

-- A walk from a directory: `step` gives the handle of a name in a directory, if there is one.
unfoldable pub walk : (Fhandle → Bytes → Option Fhandle) → Fhandle → List Bytes → Option Fhandle
walk step h [] = some h
walk step h (name ∷ rest) = given (step h name) none (λ k. walk step k rest)

abbrev pub handle_of : Option Rep → Option Fhandle
handle_of none = none
handle_of (some r) = some (handle_in r)

-- The server answers LOOKUP requests as `step` says, and every request for a name that it has not,
-- or that gets lost, is one without a handle.
pub record Resolves (P : Platform) (memory : Bytes → Bytes) (state : ClientState)
    (step : Fhandle → Bytes → Option Fhandle) : Type 0 where
  pub answer :
      (dir : Fhandle) (name : Bytes) (w : Host P)
      → Post
          (λ r _. handle_of r ≡ step dir name)
          (send_request P state
            (lookup_args (record { dir = dir; filename = name_buffer memory name }))
            lookup_req_size
            w)

module _ (P : Platform) (memory : Bytes → Bytes) (state : ClientState)
    (step : Fhandle → Bytes → Option Fhandle) where
  -- The two ways on from a LOOKUP request.
  next-walk :
      (rest : List Bytes) (found : Option Fhandle) (r : Option Rep) (w : Host P)
      → handle_of r ≡ found
      → ((k : Fhandle) (t : Host P)
          → Post (λ o _. o ≡ walk step k rest) (lookup_each P memory state k rest t))
      → Post
          (λ o _. o ≡ given found none (λ k. walk step k rest))
          (given r (pure none) (λ rep. lookup_each P memory state (handle_in rep) rest) w)
  unfolding given
  next-walk rest none none w e k = refl
  next-walk rest none (some rep) w e k = absurd cc
  next-walk rest (some h) none w e k = absurd cc
  next-walk rest (some h) (some rep) w e k =
      let same : handle_in rep ≡ h = cc in
      subst
        (λ x.
          Post (λ o _. o ≡ walk step x rest) (lookup_each P memory state (handle_in rep) rest w))
        same (k (handle_in rep) w)

  lookup_each-walk :
      (names : List Bytes) (h : Fhandle) (w : Host P)
      → Resolves P memory state step
      → Post (λ r _. r ≡ walk step h names) (lookup_each P memory state h names w)
  unfolding lookup_each walk
  lookup_each-walk [] h w R = refl
  lookup_each-walk (name ∷ rest) h w R =
      Post-bind (λ r _. handle_of r ≡ step h name) (λ o _. o ≡ walk step h (name ∷ rest))
        (send_request P state _ lookup_req_size) _ w (R.answer h name w)
        (λ r t e. next-walk rest (step h name) r t e (λ k u. lookup_each-walk rest k u R))

  is_root-spell : (names : List Bytes) → All IsFileName names → is_root (spell names) ≡ false
  unfolding bytes_eq
  is_root-spell [] h = refl
  is_root-spell ([] ∷ rest) h = absurd h.0
  is_root-spell ((b ∷ name) ∷ rest) h = refl

  -- If the server answers LOOKUP requests as `step` says, then a call of `lookup` that returns,
  -- for the path of some file names, has found what the walk from the root by these names finds,
  -- and nothing where the walk stops.
  pub lookup-walk :
      (names : List Bytes) (w : Host P)
      → All IsFileName names
      → Resolves P memory state step
      → Post (λ r _. r ≡ walk step state.root_fhandle names) (lookup P memory state (spell names) w)
  unfolding lookup
  lookup-walk names w h R =
      rw (is_root-spell names h, tokens-spell names h)
        (lookup_each-walk names state.root_fhandle w R)

-- What `snfs_read` returns for a buffer of `count` bytes.
abbrev pub IsUpTo : ℕ → ℤ → Type 0
IsUpTo count (pos n) = n ≤ count
IsUpTo count (negsuc n) = Unit

to_int-IsUpTo : (count n : ℕ) → n ≤ count → IsUpTo count (to_int n)
to_int-IsUpTo count n h = elim (Bool-cases (ltb (n % 2 ^ 32) (2 ^ 31))) [
  | inl p ↦ rw p (omega arith)
  | inr p ↦ rw p tt
]

module _ (P : Platform) (memory : Bytes → Bytes) (state : ClientState) where
  copied-IsUpTo :
      (count : ℕ) (o : Option Rep) (r : ℤ × Bytes)
      → r
        ≡ given o
            (minus eio, [])
            (λ rep.
              let to_copy = min (count_in rep) count in
              (to_int to_copy, take to_copy (payload_in rep)))
      → IsUpTo count r.0 × (length r.1 ≤ count)
  unfolding given
  copied-IsUpTo count none r e = rw e (tt, omega arith)
  copied-IsUpTo count (some rep) r e = rw e (
    to_int-IsUpTo count (min (count_in rep) count) (omega arith),
    omega (arith, length-take (min (count_in rep) count) (payload_in rep)),
  )

  -- A call of `snfs_read` that returns has copied no more bytes than the buffer takes, and reports
  -- no more, whatever the server sends.
  pub snfs_read-IsUpTo :
      (fh count : ℕ) (offset : ℤ) (w : Host P)
      → Post
          (λ r _. IsUpTo count r.0 × (length r.1 ≤ count))
          (snfs_read P memory state fh count offset w)
  unfolding snfs_read
  snfs_read-IsUpTo fh count offset w =
      Post-bind (λ _ _. Unit) (λ r _. IsUpTo count r.0 × (length r.1 ≤ count))
        (send_request P state _ read_req_size) _ w (Post-any _)
        (λ r t _. copied-IsUpTo count r _ refl)
