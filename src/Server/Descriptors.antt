-- ===== src/Server/Descriptors.antt =====
-- The descriptors that READ and WRITE use (lab2/src/server/handlers.c).
mod Stay
mod UpToOne
pub mod Dispatch
use stanford_cs240_sp21_labs.Base.{==_iff, Bool, Bool-cases, Option, [], ap, false, if◌then◌else◌}
use stanford_cs240_sp21_labs.Base.{inl, inr, none, not, refl, some, sym, take, true, ℕ, ◌&&◌}
use stanford_cs240_sp21_labs.Base.{◌==◌, ◌||◌, ◌∙◌, ◌≡◌}
use stanford_cs240_sp21_labs.Base.Bytes.{Bytes, c_str}
use stanford_cs240_sp21_labs.Base.Exec.{Exec, Sys, checked, err_exit, fail, given, ok, pure}
use stanford_cs240_sp21_labs.Base.Exec.{◌>>=◌}
use stanford_cs240_sp21_labs.Base.Exec.Post.{Post, Post-bind, Post-mono, Post-of_Keeps}
use stanford_cs240_sp21_labs.Base.Exec.Post.{Post-of_final}
use stanford_cs240_sp21_labs.Comm.Ends.{now}
use stanford_cs240_sp21_labs.Fhandledb.{find, get_file, handle_key}
use stanford_cs240_sp21_labs.Platform.{OpenFlag, Platform, rdonly, wronly}
use stanford_cs240_sp21_labs.Platform.Laws.{TellsOpen}
use stanford_cs240_sp21_labs.Proto.{Fhandle, ReadArgs, Rep, SnfsError, WriteArgs}
use stanford_cs240_sp21_labs.Server.Data.{error_and_close, flag, handle_read, handle_write}
use stanford_cs240_sp21_labs.Server.Data.{read_bytes, read_from, read_reply, write_reply}
use stanford_cs240_sp21_labs.Server.Data.{write_to}
use stanford_cs240_sp21_labs.Server.Halts.Database.{OsIs, OsIs-find}
use stanford_cs240_sp21_labs.Server.Reply.{allocate, handle_error, reply_with, send_reply}
use stanford_cs240_sp21_labs.World.{Sent, Server, World, log_sent, on_net, sys}

abbrev pub and_one : (ℕ → Bool) → ℕ → ℕ → Bool
and_one f fd x = x == fd || f x

without_one :
    (f : ℕ → Bool) (fd : ℕ) → f fd ≡ false → (x : ℕ) → (not (x == fd) && and_one f fd x) ≡ f x
without_one f fd closed x = elim (Bool-cases (x == fd)) [
  | inl e ↦ rw (e, (==_iff x fd).0 e) (sym closed)
  | inr e ↦ rw e refl
]

module _ {P : Platform} (T : TellsOpen P.os) where
  -- The open descriptors.
  abbrev pub OpenAre : (ℕ → Bool) → World P → Type 0
  OpenAre f w = (x : ℕ) → T.is_open w.os x ≡ f x

  -- A program that leaves the descriptors `g` open where `f` were, if it returns.
  pub record Goes {A : Type 0} (f g : ℕ → Bool) (m : Server P A) : Type 0 where
    pub at : (w : World P) → OpenAre f w → Post (λ _ t. OpenAre g t) (m w)

  Goes-pure : {A : Type 0} (f : ℕ → Bool) (a : A) → Goes f f (pure a)
  Goes-pure f a = record { at = λ w h. h }

  Goes-err_exit : {A : Type 0} (f g : ℕ → Bool) → Goes f g (err_exit {A = A})
  Goes-err_exit f g = record { at = λ w h. tt }

  Goes-bind :
      {A B : Type 0} {f g h : ℕ → Bool} {m : Server P A} {k : A → Server P B}
      → Goes f g m
      → ((a : A) → Goes g h (k a))
      → Goes f h (m >>= k)
  Goes-bind {g} {h} {m} {k} first next = record {
    at = λ w open_now.
        Post-bind (λ _ t. OpenAre g t) (λ _ t. OpenAre h t) m k w (first.at w open_now)
          (λ a. (next a).at);
  }

  Goes-given :
      {A B : Type 0} {f g : ℕ → Bool} (o : Option A) {m : Server P B} {k : A → Server P B}
      → Goes f g m
      → ((a : A) → Goes f g (k a))
      → Goes f g (given o m k)
  unfolding given
  Goes-given none a b = a
  Goes-given (some x) a b = b x

  Goes-checked :
      {A B : Type 0} {f g : ℕ → Bool} (r : Sys A) {m : ℕ → Server P B} {k : A → Server P B}
      → ((e : ℕ) → Goes f g (m e))
      → ((a : A) → Goes f g (k a))
      → Goes f g (checked r m k)
  unfolding checked
  Goes-checked (ok x) a b = b x
  Goes-checked (fail e) a b = a e

  Goes-if :
      {A : Type 0} {f g : ℕ → Bool} (b : Bool) {m n : Server P A}
      → Goes f g m
      → Goes f g n
      → Goes f g (if b then m else n)
  Goes-if true a b = a
  Goes-if false a b = b

  -- A system call that opens and closes nothing.
  Goes-sys :
      {A : Type 0} (f : ℕ → Bool) (c : P.os.State → A × P.os.State)
      → ((s : P.os.State) (x : ℕ) → T.is_open (c s).1 x ≡ T.is_open s x)
      → Goes f f (sys c)
  unfolding sys
  Goes-sys f c same = record { at = λ w h x. same w.os x ∙ h x }

  -- A program that leaves the system's state alone.
  Goes-on_net : {A : Type 0} (f : ℕ → Bool) (m : Exec P.net.State A) → Goes f f (on_net m)
  unfolding on_net
  Goes-on_net f m = record {
    at = λ w h. Post-of_final (OpenAre f) (m w.net).0 (record w { net = (m w.net).1 }) h;
  }

  Goes-log_sent : (f : ℕ → Bool) (m : Sent) → Goes f f (log_sent m)
  unfolding log_sent
  Goes-log_sent f m = record { at = λ w h. h }

  Goes-get_file : (f : ℕ → Bool) (h : Fhandle) → Goes f f (get_file P h)
  unfolding get_file
  Goes-get_file f h = record {
    at = λ w open_now.
        Post-mono (λ _ t. OsIs w.os t) (λ _ t. OpenAre f t) (find P (handle_key h) w)
          (λ a t is x. ap (λ (s : P.os.State). T.is_open s x) is.same ∙ open_now x)
          (Post-of_Keeps (OsIs w.os) (find P (handle_key h)) w (OsIs-find w.os _)
            (record { same = refl }));
  }

  Goes-reply :
      (f : ℕ → Bool) (sock : ℕ) (rep : Rep) (size : ℕ) → Goes f f (reply_with sock rep size)
  unfolding reply_with send_reply
  Goes-reply f sock rep size =
      Goes-bind
        (Goes-bind (Goes-on_net f _) (λ d. Goes-bind (Goes-log_sent f _) (λ _. Goes-pure f d)))
        (λ d. Goes-pure f tt)

  Goes-error : (f : ℕ → Bool) (sock : ℕ) (e : SnfsError) → Goes f f (handle_error sock e)
  unfolding handle_error
  Goes-error f sock e = Goes-reply f sock _ _

  Goes-allocate : (f : ℕ → Bool) (size : ℕ) → Goes f f (allocate size)
  unfolding allocate
  Goes-allocate f size =
      Goes-bind (Goes-sys f _ (T.allocates size))
        (λ room. Goes-if room (Goes-pure f tt) (Goes-err_exit f f))

  -- With one descriptor more that was not open before.
  module _ (f : ℕ → Bool) (fd : ℕ) (closed : f fd ≡ false) where
    Goes-close : Goes (and_one f fd) f (sys (P.os.close fd) >>= λ _. pure tt)
    unfolding ◌>>=◌ sys
    Goes-close = record {
      at = λ w h x.
          T.closes fd w.os x
          ∙ ap (λ (b : Bool). not (x == fd) && b) (h x)
          ∙ without_one f fd closed x;
    }

    Goes-error_and_close :
        (sock : ℕ) (e : SnfsError) → Goes (and_one f fd) f (error_and_close sock fd e)
    unfolding error_and_close
    Goes-error_and_close sock e = Goes-bind (Goes-error (and_one f fd) sock e) (λ _. Goes-close)

    Goes-read_reply :
        (sock count : ℕ) (buff : Bytes) → Goes (and_one f fd) f (read_reply sock fd count buff)
    unfolding read_reply
    Goes-read_reply sock count buff =
        Goes-bind (Goes-allocate (and_one f fd) _)
          (λ _. Goes-bind (Goes-reply (and_one f fd) sock _ _) (λ _. Goes-close))

    Goes-read_bytes : (sock count : ℕ) → Goes (and_one f fd) f (read_bytes sock fd count)
    unfolding read_bytes
    Goes-read_bytes sock count =
        Goes-bind (Goes-sys (and_one f fd) (P.os.read fd count) (T.reads fd count))
          (λ r. Goes-checked r (λ e. Goes-error_and_close sock _) (Goes-read_reply sock count))

    Goes-read_from :
        (sock : ℕ) (args : ReadArgs) (file_size : ℕ)
        → Goes (and_one f fd) f (read_from sock args file_size fd)
    unfolding read_from
    Goes-read_from sock args file_size =
        Goes-bind (Goes-sys (and_one f fd) (P.os.lseek fd args.offset) (T.seeks fd args.offset))
          λ moved.
            Goes-checked moved (λ e. Goes-error_and_close sock _)
              λ offset.
                Goes-if _ (Goes-error_and_close sock _)
                  (Goes-if _ (Goes-read_bytes sock args.count) (Goes-read_reply sock args.count []))

    Goes-write_to : (sock : ℕ) (args : WriteArgs) → Goes (and_one f fd) f (write_to sock args fd)
    unfolding write_to write_reply
    Goes-write_to sock args =
        Goes-bind (Goes-sys (and_one f fd) (P.os.lseek fd args.offset) (T.seeks fd args.offset))
          λ moved.
            Goes-checked moved (λ e. Goes-error_and_close sock _)
              λ offset. Goes-if _ (Goes-error_and_close sock _) (
                Goes-bind
                  (Goes-sys (and_one f fd) (P.os.write fd (take args.count args.payload))
                    (T.writes fd (take args.count args.payload)))
                  (λ r.
                    Goes-checked r (λ e. Goes-error_and_close sock _)
                      (λ bytes. Goes-bind (Goes-reply (and_one f fd) sock _ _) (λ _. Goes-close))))

  -- `open`, the test of its result, and a program that closes what is open then.
  Goes-open :
      (f : ℕ → Bool) (path : Bytes) (flag : OpenFlag) {m : ℕ → Server P (Unit {0})}
      {k : ℕ → Server P (Unit {0})}
      → ((e : ℕ) → Goes f f (m e))
      → ((fd : ℕ) → f fd ≡ false → Goes (and_one f fd) f (k fd))
      → Goes f f (sys (P.os.open_file path flag) >>= λ r. checked r m k)
  unfolding ◌>>=◌ sys checked
  Goes-open f path flag {m} {k} failed rest = record {
    at = λ w h. by_result w h (P.os.open_file path flag w.os).0 refl;
  }
    where
      by_result :
          (w : World P)
          → OpenAre f w
          → (r : Sys ℕ) → (P.os.open_file path flag w.os).0 ≡ r
          → Post
              (λ _ t. OpenAre f t)
              (checked r m k (record w { os = (P.os.open_file path flag w.os).1 }))
      by_result w h (fail e) q =
          (failed e).at (record w { os = (P.os.open_file path flag w.os).1 })
            (λ x. T.fails path flag w.os e x q ∙ h x)
      by_result w h (ok fd) q =
          let (fresh, now) = T.opens path flag w.os fd q in
          (rest fd (sym (h fd) ∙ fresh)).at (record w { os = (P.os.open_file path flag w.os).1 })
            (λ x. now x ∙ ap (λ (b : Bool). x == fd || b) (h x))

  pub read-Goes : (f : ℕ → Bool) (sock : ℕ) (args : ReadArgs) → Goes f f (handle_read sock args)
  unfolding handle_read
  read-Goes f sock args = Goes-bind (Goes-get_file f args.file) λ found.
      Goes-given found (Goes-error f sock _) λ buffer.
        Goes-bind (Goes-sys f (P.os.stat (c_str buffer)) (T.stats (c_str buffer))) λ r.
          Goes-checked r (λ e. Goes-error f sock _)
            λ st.
              Goes-open f (c_str buffer) rdonly (λ e. Goes-error f sock _)
                (λ fd closed. Goes-read_from f fd closed sock args st.st_size)

  pub write-Goes : (f : ℕ → Bool) (sock : ℕ) (args : WriteArgs) → Goes f f (handle_write sock args)
  unfolding handle_write
  write-Goes f sock args = Goes-bind (Goes-get_file f args.file) λ found.
      Goes-given found (Goes-error f sock _) λ buffer.
        Goes-open f (c_str buffer) wronly (λ e. Goes-error f sock _)
          (λ fd closed. Goes-write_to f fd closed sock args)
