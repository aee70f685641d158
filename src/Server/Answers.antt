-- ===== src/Server/Answers.antt =====
-- The replies to a request: the notion of one answer, with a rule for each way to build a handler.
-- The children follow the handlers and the loop.
pub mod Handlers
pub mod Dispatch
use mathlib.Core.Path.{subst}
use stanford_cs240_sp21_labs.Base.{Bool, List, Option, false, if◌then◌else◌, inl, inr, length}
use stanford_cs240_sp21_labs.Base.{none, refl, some, true, ℕ, ◌∙◌, ◌∷◌, ◌≡◌, ◌⊎◌}
use stanford_cs240_sp21_labs.Base.Exec.{Outcome, Sys, checked, continue, err_exit, exited, fail}
use stanford_cs240_sp21_labs.Base.Exec.{given, looping, ok, pure, returned, ◌>>=◌}
use stanford_cs240_sp21_labs.Base.Exec.Keeps.{Keeps}
use stanford_cs240_sp21_labs.Platform.{Platform}
use stanford_cs240_sp21_labs.Proto.{Fattr, Fhandle, LookupRep, MsgType, Rep, SnfsError}
use stanford_cs240_sp21_labs.Proto.{create_rep, create_size, getattr_rep, getattr_size}
use stanford_cs240_sp21_labs.Proto.{lookup_rep, lookup_size, mkdir_rep, mkdir_size, mount_rep}
use stanford_cs240_sp21_labs.Proto.{mount_size, noop_rep, read_rep, readdir_rep, remove_rep}
use stanford_cs240_sp21_labs.Proto.{remove_size, rename_rep, rename_size, rep_type, setattr_rep}
use stanford_cs240_sp21_labs.Proto.{setattr_size, sizeof_msg_type, wire_size, write_rep}
use stanford_cs240_sp21_labs.Proto.{write_size}
use stanford_cs240_sp21_labs.Server.Reply.{handle_error, reply_with, send_reply}
use stanford_cs240_sp21_labs.World.{Sent, Server, World, log_sent, sys}
use stanford_cs240_sp21_labs.World.Silent.{Logged, Silent-get_file, Silent-name_find_or_insert}
use stanford_cs240_sp21_labs.World.Silent.{Silent-name_remove, Silent-on_db, Silent-on_net}
use stanford_cs240_sp21_labs.World.Silent.{Silent-sys}

-- The count in a reply with a flexible array is the length of the array.
abbrev pub IsCounted : Rep → Type 0
IsCounted (readdir_rep r) = r.num_entries ≡ length r.entries
IsCounted (read_rep r) = r.count ≡ length r.payload
IsCounted _ = Unit

-- The reply `m` answers a request of type `t`: it has that type, or it is an error, the size that
-- was named to `send_data` is the size of its content, and its count is right.
pub record IsAnswer (t : MsgType) (m : Sent) : Type 0 where
  pub type_fits : (rep_type m.rep ≡ t) ⊎ (rep_type m.rep ≡ MsgType.error)
  pub size_fits : m.size ≡ wire_size m.rep
  pub counted : IsCounted m.rep

-- What a program has done to the log of replies: if it returned, it added one answer, and if it
-- ended the process or ran out of rounds, it added none.
abbrev pub Answered :
    {P : Platform} {A : Type 0} → MsgType → List Sent → Outcome A × World P → Type 0
Answered t before (returned _, w) = (m : Sent) × (w.sent ≡ m ∷ before) × IsAnswer t m
Answered t before (exited c, w) = w.sent ≡ before
Answered t before (looping, w) = w.sent ≡ before

pub record Replies {P : Platform} {A : Type 0} (t : MsgType) (m : Server P A) : Type 0 where
  pub at : (w : World P) → Answered t w.sent (m w)

-- A program that returns, and hands no reply to `send_data`.
pub record Quiet {P : Platform} {A : Type 0} (m : Server P A) : Type 0 where
  pub value : World P → A
  pub after : World P → World P
  pub at : (w : World P) → m w ≡ (returned (value w), after w)
  pub same : (w : World P) → (after w).sent ≡ w.sent

module _ {P : Platform} where
  Quiet-pure : {A : Type 0} (a : A) → Quiet {P = P} (pure a)
  Quiet-pure a = record { value = λ w. a; after = λ w. w; at = λ w. refl; same = λ w. refl }

  pub Quiet-close : (fd : ℕ) → Quiet {P = P} (sys (P.os.close fd) >>= λ _. pure tt)
  unfolding sys ◌>>=◌
  Quiet-close fd = record {
    value = λ w. tt;
    after = λ w. record w { os = (P.os.close fd w.os).1 };
    at = λ w. refl;
    same = λ w. refl;
  }

module _ {P : Platform} {A B : Type 0} where
  continue-then :
      (u : MsgType) (r : Outcome A) (f : A → Server P B) (w : World P) (before : List Sent)
      → Answered u before (r, w)
      → ((a : A) → Quiet (f a))
      → Answered u before (continue r f w)
  continue-then u (returned a) f w before (m, e, ok_m) kf =
      let q : Quiet (f a) = kf a in rw q.at ((m, q.same w ∙ e, ok_m))
  continue-then u (exited c) f w before e kf = e
  continue-then u looping f w before e kf = e

module _ {P : Platform} {A B : Type 0} {t : MsgType} where
  continue-Answered :
      (r : Outcome A) (f : A → Server P B) (w : World P) (before : List Sent)
      → w.sent ≡ before
      → ((a : A) → Replies t (f a))
      → Answered t before (continue r f w)
  continue-Answered (returned a) f w before e kf = subst (λ l. Answered t l (f a w)) e ((kf a).at w)
  continue-Answered (exited c) f w before e kf = e
  continue-Answered looping f w before e kf = e

  pub Replies-bind :
      (m : Server P A) (f : A → Server P B)
      → ((log : List Sent) → Keeps (Logged log) m)
      → ((a : A) → Replies t (f a))
      → Replies t (m >>= f)
  unfolding ◌>>=◌
  Replies-bind m f km kf = record {
    at = λ w.
        let (r, w') = m w in
        continue-Answered r f w' w.sent ((km w.sent).at w (record { same = refl })).same kf;
  }

  pub Replies-then :
      (m : Server P A) (f : A → Server P B)
      → Replies t m
      → ((a : A) → Quiet (f a))
      → Replies t (m >>= f)
  unfolding ◌>>=◌
  Replies-then m f km kf = record {
    at = λ w. let (r, w') = m w in continue-then t r f w' w.sent (km.at w) kf;
  }

  pub Replies-checked :
      (r : Sys A) (f : ℕ → Server P B) (g : A → Server P B)
      → ((e : ℕ) → Replies t (f e))
      → ((a : A) → Replies t (g a))
      → Replies t (checked r f g)
  unfolding checked
  Replies-checked (ok a) f g kf kg = kg a
  Replies-checked (fail e) f g kf kg = kf e

  pub Replies-given :
      (o : Option A) (m : Server P B) (g : A → Server P B)
      → Replies t m
      → ((a : A) → Replies t (g a))
      → Replies t (given o m g)
  unfolding given
  Replies-given none m g km kg = km
  Replies-given (some a) m g km kg = kg a

module _ {P : Platform} {A : Type 0} {t : MsgType} where
  pub Replies-if :
      (b : Bool) (m n : Server P A) → Replies t m → Replies t n → Replies t (if b then m else n)
  Replies-if true m n km kn = km
  Replies-if false m n km kn = kn

  pub Replies-err_exit : Replies t (err_exit {S = World P} {A = A})
  Replies-err_exit = record { at = λ w. refl }

module _ {P : Platform} {t : MsgType} where
  Replies-log :
      (m : Sent) (d : Option ℕ) → IsAnswer t m → Replies {P = P} t (log_sent m >>= λ _. pure d)
  unfolding log_sent ◌>>=◌
  Replies-log m d fits = record { at = λ w. (m, refl, fits) }

  pub Replies-send :
      (sock : ℕ) (rep : Rep) (size : ℕ)
      → ((rep_type rep ≡ t) ⊎ (rep_type rep ≡ MsgType.error))
      → size ≡ wire_size rep
      → IsCounted rep
      → Replies {P = P} t (reply_with sock rep size)
  unfolding reply_with send_reply
  Replies-send sock rep size fits s c =
      Replies-then _ _
        (Replies-bind _ _ (λ log. Silent-on_net _)
          (λ d. Replies-log _ d (record { type_fits = fits; size_fits = s; counted = c })))
        (λ d. Quiet-pure tt)

  pub Replies-error : (sock : ℕ) (e : SnfsError) → Replies {P = P} t (handle_error sock e)
  unfolding handle_error rep_type
  Replies-error sock e = Replies-send sock _ _ (inr refl) refl tt

-- The replies of a fixed size, each with the size that its handler names.
module _ {P : Platform} (sock : ℕ) where
  pub Replies-noop : Replies {P = P} MsgType.noop (reply_with sock noop_rep sizeof_msg_type)
  unfolding rep_type
  Replies-noop = Replies-send sock _ _ (inl refl) refl tt

  pub Replies-getattr :
      (a : Fattr) → Replies {P = P} MsgType.getattr (reply_with sock (getattr_rep a) getattr_size)
  unfolding rep_type
  Replies-getattr a = Replies-send sock _ _ (inl refl) refl tt

  pub Replies-mount :
      (h : Fhandle) → Replies {P = P} MsgType.mount (reply_with sock (mount_rep h) mount_size)
  unfolding rep_type
  Replies-mount h = Replies-send sock _ _ (inl refl) refl tt

  pub Replies-lookup :
      (r : LookupRep) → Replies {P = P} MsgType.lookup (reply_with sock (lookup_rep r) lookup_size)
  unfolding rep_type
  Replies-lookup r = Replies-send sock _ _ (inl refl) refl tt

  pub Replies-write :
      (n : ℕ) → Replies {P = P} MsgType.write (reply_with sock (write_rep n) write_size)
  unfolding rep_type
  Replies-write n = Replies-send sock _ _ (inl refl) refl tt

  pub Replies-setattr :
      (n : ℕ) → Replies {P = P} MsgType.setattr (reply_with sock (setattr_rep n) setattr_size)
  unfolding rep_type
  Replies-setattr n = Replies-send sock _ _ (inl refl) refl tt

  pub Replies-create :
      (h : Fhandle) → Replies {P = P} MsgType.create (reply_with sock (create_rep h) create_size)
  unfolding rep_type
  Replies-create h = Replies-send sock _ _ (inl refl) refl tt

  pub Replies-remove : Replies {P = P} MsgType.remove (reply_with sock remove_rep remove_size)
  unfolding rep_type
  Replies-remove = Replies-send sock _ _ (inl refl) refl tt

  pub Replies-rename :
      (h : Fhandle) → Replies {P = P} MsgType.rename (reply_with sock (rename_rep h) rename_size)
  unfolding rep_type
  Replies-rename h = Replies-send sock _ _ (inl refl) refl tt

  pub Replies-mkdir :
      (h : Fhandle) → Replies {P = P} MsgType.mkdir (reply_with sock (mkdir_rep h) mkdir_size)
  unfolding rep_type
  Replies-mkdir h = Replies-send sock _ _ (inl refl) refl tt

pub ruleset answer_rules = (
  Replies-bind, Replies-checked, Replies-given, Replies-if, Replies-err_exit, Replies-error,
  Replies-noop, Replies-getattr, Replies-mount, Replies-lookup, Replies-write, Replies-setattr,
  Replies-create, Replies-remove, Replies-rename, Replies-mkdir, Silent-sys, Silent-on_db,
  Silent-get_file, Silent-name_find_or_insert, Silent-name_remove,
)
