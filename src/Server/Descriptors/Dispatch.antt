-- ===== src/Server/Descriptors/Dispatch.antt =====
-- The descriptors that are left open by each request of the switch in lab2/src/server/main.c.
use stanford_cs240_sp21_labs.Base.{==_iff, Bool, false, refl, true, ℕ, ◌∙◌, ◌≡◌}
use stanford_cs240_sp21_labs.Base.Bytes.{Bytes, c_str}
use stanford_cs240_sp21_labs.Base.Exec.{checked, ok, ◌>>=◌}
use stanford_cs240_sp21_labs.Base.Exec.Post.{Post, Post-mono}
use stanford_cs240_sp21_labs.Base.Exec.Preserves.{Preserves}
use stanford_cs240_sp21_labs.Platform.{Platform}
use stanford_cs240_sp21_labs.Platform.Laws.{TellsOpen}
use stanford_cs240_sp21_labs.Proto.{CreateArgs}
use stanford_cs240_sp21_labs.Proto.{Req}
use stanford_cs240_sp21_labs.Proto.{create_args}
use stanford_cs240_sp21_labs.Proto.{readdir_args}
use stanford_cs240_sp21_labs.Server.Descriptors.{OpenAre, and_one}
use stanford_cs240_sp21_labs.Server.Descriptors.Stay.{StayOpen}
use stanford_cs240_sp21_labs.Server.Descriptors.UpToOne.{UpToOne, creat-Opens}
use stanford_cs240_sp21_labs.Server.Descriptors.UpToOne.{named-Stay, opened-OpenAre}
use stanford_cs240_sp21_labs.Server.Names.{handle_create}
use stanford_cs240_sp21_labs.World.{Server, World, sys}

-- What a handler leaves open: READDIR and CREATE perhaps one descriptor more.
unfoldable pub Left : (P : Platform) → TellsOpen P.os → Req → (ℕ → Bool) → World P → Type 0
Left P T (readdir_args a) f t = UpToOne P T f t
Left P T (create_args a) f t = UpToOne P T f t
Left P T _ f t = OpenAre T f t

and_one-has : (f : ℕ → Bool) (fd : ℕ) → and_one f fd fd ≡ true
and_one-has f fd = rw ((==_iff fd fd).1 refl) refl

module _ {P : Platform} (T : TellsOpen P.os) where
  -- If the system tells which descriptors are open, and `creat` succeeds: a CREATE handler that
  -- returns has left open the descriptor that `creat` gave, which was not open before.
  pub handle_create-leaks :
      (sock : ℕ) (args : CreateArgs) (fd : ℕ) (w : World P)
      → (P.os.creat (c_str args.filename) args.mode w.os).0 ≡ ok fd
      → (T.is_open w.os fd ≡ false)
        × Post (λ _ t. T.is_open t.os fd ≡ true) (handle_create sock args w)
  unfolding handle_create ◌>>=◌ sys checked
  handle_create-leaks sock args fd w q =
      let path = c_str args.filename in
      let f : ℕ → Bool = T.is_open w.os in
      let (fresh, now_open) =
        opened-OpenAre T f (P.os.creat path args.mode) w fd (creat-Opens T path args.mode)
          (record { at = λ x. refl }) q in
      (
        fresh,
        rw q (
            Post-mono (λ _ t. StayOpen P T (and_one f fd) t) (λ _ t. T.is_open t.os fd ≡ true) _
              (λ a t is. is.at fd ∙ and_one-has f fd)
              ((named-Stay T (and_one f fd) path sock _ _).at _ now_open)),
      )
