-- ===== src/Server/Descriptors/UpToOne.antt =====
-- READDIR and CREATE (lab2/src/server/handlers.c), which leave at most one descriptor open.
use stanford_cs240_sp21_labs.Base.{Bool, List, Option, ap, false, if◌then◌else◌, none, refl, some}
use stanford_cs240_sp21_labs.Base.{suc, sym, true, zero, ℕ, ◌==◌, ◌||◌, ◌∙◌, ◌≡◌}
use stanford_cs240_sp21_labs.Base.Bytes.{Bytes, c_str}
use stanford_cs240_sp21_labs.Base.Exec.{Sys, checked, fail, given, ok, ◌>>=◌}
use stanford_cs240_sp21_labs.Base.Exec.Post.{Post, Post-bind, Post-mono}
use stanford_cs240_sp21_labs.Base.Exec.Preserves.{Preserves, Preserves-bind, Preserves-checked}
use stanford_cs240_sp21_labs.Base.Exec.Preserves.{Preserves-given, Preserves-pure}
use stanford_cs240_sp21_labs.Fhandledb.{name_find_or_insert}
use stanford_cs240_sp21_labs.Platform.{Os, Platform}
use stanford_cs240_sp21_labs.Platform.Laws.{TellsOpen}
use stanford_cs240_sp21_labs.Proto.{CreateArgs, Fhandle, ReaddirArgs, Rep, Snfsentry}
use stanford_cs240_sp21_labs.Server.Descriptors.{OpenAre, and_one}
use stanford_cs240_sp21_labs.Server.Descriptors.Stay.{Stay-allocate, Stay-error, Stay-get_file}
use stanford_cs240_sp21_labs.Server.Descriptors.Stay.{Stay-name, Stay-reply, Stay-stat, Stay-sys}
use stanford_cs240_sp21_labs.Server.Descriptors.Stay.{StayOpen}
use stanford_cs240_sp21_labs.Server.Names.{handle_create}
use stanford_cs240_sp21_labs.Server.Readdir.{handle_readdir, read_entries, readdir_reply}
use stanford_cs240_sp21_labs.Server.Reply.{reply_with}
use stanford_cs240_sp21_labs.World.{Server, World, sys}

-- At most one descriptor more is open, one that was not open before.
pub data UpToOne (P : Platform) (T : TellsOpen P.os) (f : ℕ → Bool) (w : World P) : Type 0 where
  as_before : OpenAre T f w → UpToOne P T f w
  one_more : (fd : ℕ) → f fd ≡ false → OpenAre T (and_one f fd) w → UpToOne P T f w

pub record MayLeave {A : Type 0} (P : Platform) (T : TellsOpen P.os) (f : ℕ → Bool) (m : Server P A)
    : Type 0 where
  pub at : (w : World P) → StayOpen P T f w → Post (λ _ t. UpToOne P T f t) (m w)

-- A call that opens a descriptor if it succeeds.
pub record Opens (O : Os) (T : TellsOpen O) (c : O.State → Sys ℕ × O.State) : Type 0 where
  pub one :
      (s : O.State) (fd : ℕ)
      → (c s).0 ≡ ok fd
      → (T.is_open s fd ≡ false) × ((x : ℕ) → T.is_open (c s).1 x ≡ (x == fd || T.is_open s x))
  pub no_one : (s : O.State) (e x : ℕ) → (c s).0 ≡ fail e → T.is_open (c s).1 x ≡ T.is_open s x

module _ {P : Platform} (T : TellsOpen P.os) (f : ℕ → Bool) where
  MayLeave-of_Stay : {A : Type 0} (m : Server P A) → Preserves (StayOpen P T f) m → MayLeave P T f m
  MayLeave-of_Stay m stays = record {
    at = λ w h.
        Post-mono (λ _ t. StayOpen P T f t) (λ _ t. UpToOne P T f t) (m w)
          (λ a t is. as_before is.at) (stays.at w h);
  }

  MayLeave-bind :
      {A B : Type 0} (m : Server P A) (k : A → Server P B)
      → Preserves (StayOpen P T f) m
      → ((a : A) → MayLeave P T f (k a))
      → MayLeave P T f (m >>= k)
  MayLeave-bind m k first next = record {
    at = λ w h.
        Post-bind (λ _ t. StayOpen P T f t) (λ _ t. UpToOne P T f t) m k w (first.at w h)
          (λ a. (next a).at);
  }

  MayLeave-given :
      {A B : Type 0} (o : Option A) (m : Server P B) (k : A → Server P B)
      → MayLeave P T f m
      → ((a : A) → MayLeave P T f (k a))
      → MayLeave P T f (given o m k)
  unfolding given
  MayLeave-given none m k a b = a
  MayLeave-given (some x) m k a b = b x

  MayLeave-checked :
      {A B : Type 0} (r : Sys A) (m : ℕ → Server P B) (k : A → Server P B)
      → ((e : ℕ) → MayLeave P T f (m e))
      → ((a : A) → MayLeave P T f (k a))
      → MayLeave P T f (checked r m k)
  unfolding checked
  MayLeave-checked (ok x) m k a b = b x
  MayLeave-checked (fail e) m k a b = a e

  MayLeave-if :
      {A : Type 0} (b : Bool) (m n : Server P A)
      → MayLeave P T f m
      → MayLeave P T f n
      → MayLeave P T f (if b then m else n)
  MayLeave-if true m n a b = a
  MayLeave-if false m n a b = b

  pub opened-OpenAre :
      (c : P.os.State → Sys ℕ × P.os.State) (w : World P) (fd : ℕ)
      → Opens P.os T c
      → StayOpen P T f w
      → (c w.os).0 ≡ ok fd
      → (f fd ≡ false) × StayOpen P T (and_one f fd) (record w { os = (c w.os).1 })
  opened-OpenAre c w fd opens h q =
      let (fresh, now_open) = opens.one w.os fd q in
      (
        sym (h.at fd) ∙ fresh,
        record { at = λ x. now_open x ∙ ap (λ (b : Bool). x == fd || b) (h.at x) },
      )

  module _ (c : P.os.State → Sys ℕ × P.os.State) (opens : Opens P.os T c) {B : Type 0}
      (m : ℕ → Server P B) (k : ℕ → Server P B) (failed : (e : ℕ) → MayLeave P T f (m e))
      (rest : (fd : ℕ) → Preserves (StayOpen P T (and_one f fd)) (k fd)) where
    checked-UpToOne :
        (w : World P)
        → StayOpen P T f w
        → (r : Sys ℕ) → (c w.os).0 ≡ r
        → Post (λ _ t. UpToOne P T f t) (checked r m k (record w { os = (c w.os).1 }))
    unfolding checked
    checked-UpToOne w h (fail e) q =
        (failed e).at (record w { os = (c w.os).1 })
          (record { at = λ x. opens.no_one w.os e x q ∙ h.at x })
    checked-UpToOne w h (ok fd) q =
        let (fresh, now_open) = opened-OpenAre c w fd opens h q in
        Post-mono (λ _ t. StayOpen P T (and_one f fd) t) (λ _ t. UpToOne P T f t)
          (k fd (record w { os = (c w.os).1 })) (λ a t is. one_more fd fresh is.at)
          ((rest fd).at (record w { os = (c w.os).1 }) now_open)

    MayLeave-open : MayLeave P T f (sys c >>= λ r. checked r m k)
    unfolding ◌>>=◌ sys
    MayLeave-open = record { at = λ w h. checked-UpToOne w h (c w.os).0 refl }

module _ {O : Os} (T : TellsOpen O) where
  pub creat-Opens : (path : Bytes) (mode : ℕ) → Opens O T (O.creat path mode)
  creat-Opens path mode = record { one = T.creates path mode; no_one = T.creates_none path mode }

  opendir-Opens : (path : Bytes) → Opens O T (O.opendir path)
  opendir-Opens path = record { one = T.opens_dir path; no_one = T.opens_no_dir path }

module _ {P : Platform} (T : TellsOpen P.os) where
  pub named-Stay :
      (f : ℕ → Bool) (path : Bytes) (sock : ℕ) (rep : Fhandle → Rep) (size : ℕ)
      → Preserves
          (StayOpen P T f)
          (name_find_or_insert P path >>= λ h. reply_with {P = P} sock (rep h) size)
  named-Stay f path sock rep size =
      Preserves-bind _ _ (Stay-name T f path) (λ h. Stay-reply T f sock (rep h) size)

  pub create-MayLeave :
      (f : ℕ → Bool) (sock : ℕ) (args : CreateArgs) → MayLeave P T f (handle_create sock args)
  unfolding handle_create
  create-MayLeave f sock args =
      MayLeave-open T f _ (creat-Opens T (c_str args.filename) args.mode) _ _
        (λ e. MayLeave-of_Stay T f _ (Stay-error T f sock _))
        (λ fd. named-Stay (and_one f fd) _ sock _ _)

  read_entries-Stay :
      (f : ℕ → Bool) (room dir : ℕ) → Preserves (StayOpen P T f) (read_entries room dir)
  unfolding read_entries
  read_entries-Stay f zero dir =
      Preserves-bind _ _ (Stay-sys T f _ (T.lists dir))
        λ next. Preserves-checked next _ _ (λ e. Preserves-pure _) (λ entry. Preserves-pure _)
  read_entries-Stay f (suc room) dir = Preserves-bind _ _ (Stay-sys T f _ (T.lists dir)) λ next.
      Preserves-checked next _ _ (λ e. Preserves-pure _)
        λ entry.
          Preserves-given entry _ _ (Preserves-pure _)
            (λ e. Preserves-bind _ _ (read_entries-Stay f room dir) (λ rest. Preserves-pure _))

  readdir_reply-Stay :
      (f : ℕ → Bool) (sock : ℕ) (es : List Snfsentry)
      → Preserves (StayOpen P T f) (readdir_reply sock es)
  unfolding readdir_reply
  readdir_reply-Stay f sock es =
      Preserves-bind _ _ (Stay-allocate T f _) (λ _. Stay-reply T f sock _ _)

  pub readdir-MayLeave :
      (f : ℕ → Bool) (sock : ℕ) (args : ReaddirArgs) → MayLeave P T f (handle_readdir sock args)
  unfolding handle_readdir
  readdir-MayLeave f sock args = MayLeave-bind T f _ _ (Stay-get_file T f args.dir) λ found.
      MayLeave-given T f found _ _ (MayLeave-of_Stay T f _ (Stay-error T f sock _)) λ buffer.
        MayLeave-bind T f _ _ (Stay-stat T f (c_str buffer)) λ r.
          MayLeave-checked T f r _ _ (λ e. MayLeave-of_Stay T f _ (Stay-error T f sock _))
            λ st. MayLeave-if T f _ _ _ (MayLeave-of_Stay T f _ (Stay-error T f sock _)) (
              MayLeave-open T f _ (opendir-Opens T (c_str buffer)) _ _
                (λ e. MayLeave-of_Stay T f _ (Stay-error T f sock _))
                (λ dir.
                  Preserves-bind _ _ (read_entries-Stay (and_one f dir) args.count dir) (λ entries.
                    Preserves-checked entries _ _ (λ e. Stay-error T (and_one f dir) sock _)
                      (readdir_reply-Stay (and_one f dir) sock))))
