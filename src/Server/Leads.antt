-- ===== src/Server/Leads.antt =====
-- Handles in replies and the paths that they lead to (lab2/src/server/handlers.c and fhandledb.c):
-- what a reply is by the database as it is when the handler returns.
pub mod Dispatch
pub mod Rename
use mathlib.Core.Path.{fun_ext, subst}
use stanford_cs240_sp21_labs.Base.{Option, [], none, some, sym, ℕ, ◌∙◌, ◌∷◌, ◌≡◌}
use stanford_cs240_sp21_labs.Base.Bytes.{Bytes, c_str, terminated}
use stanford_cs240_sp21_labs.Base.Exec.{Exec, Sys, checked, fail, given, ok, ◌>>=◌}
use stanford_cs240_sp21_labs.Base.Exec.Keeps.{Keeps, Keeps-bind, Keeps-err_exit, Keeps-if}
use stanford_cs240_sp21_labs.Base.Exec.Keeps.{Keeps-pure}
use stanford_cs240_sp21_labs.Base.Exec.Post.{Post, Post-and, Post-bind, Post-mono, Post-of_Keeps}
use stanford_cs240_sp21_labs.Fhandledb.{find, get_file, handle_key}
use stanford_cs240_sp21_labs.Fhandledb.Entries.{Entries}
use stanford_cs240_sp21_labs.Fhandledb.Laws.{Found, SameEntries, as_sys, entries, find-Post}
use stanford_cs240_sp21_labs.Fhandledb.Laws.{same_as}
use stanford_cs240_sp21_labs.Platform.{Platform}
use stanford_cs240_sp21_labs.Platform.Laws.{IsLawfulDb}
use stanford_cs240_sp21_labs.Proto.{Fhandle, Rep, Req, SnfsError, create_args, create_rep}
use stanford_cs240_sp21_labs.Proto.{error_rep, lookup_args, lookup_rep, mkdir_args, mkdir_rep}
use stanford_cs240_sp21_labs.Proto.{mount_args, mount_rep}
use stanford_cs240_sp21_labs.Server.Files.{join_path}
use stanford_cs240_sp21_labs.Server.Reply.{allocate, handle_error, reply_with, send_reply}
use stanford_cs240_sp21_labs.Server.Says.{LastFits, Says-reply}
use stanford_cs240_sp21_labs.World.{Sent, Server, World, log_sent, on_net, sys}

-- The path that a request names for which a handle is asked, given the entries of the database.
unfoldable pub req_path : Entries → Req → Option Bytes
req_path g mount_args = some (b'/' ∷ [])
req_path g (create_args a) = some (c_str a.filename)
req_path g (mkdir_args a) = some (c_str a.dirname)
req_path g (lookup_args a) =
    checked (g (handle_key a.dir)) (λ e. none)
      (λ buffer. some (join_path (c_str buffer) (c_str a.filename)))
req_path g _ = none

-- An error, or a reply with a handle whose entry is the path.
abbrev pub IsNamed : Bytes → Entries → Rep → Type 0
IsNamed path g (error_rep e) = Unit
IsNamed path g (mount_rep h) = g (handle_key h) ≡ ok (terminated path)
IsNamed path g (lookup_rep r) = g (handle_key r.handle) ≡ ok (terminated path)
IsNamed path g (create_rep h) = g (handle_key h) ≡ ok (terminated path)
IsNamed path g (mkdir_rep h) = g (handle_key h) ≡ ok (terminated path)
IsNamed path g _ = ⊥

-- The newest reply is right by the database as it is now.
abbrev pub Now : {P : Platform} → (Entries → Rep → Type 0) → World P → Type 0
Now Q t = LastFits (Q (entries t)) t.sent

-- The newest reply is an error, or its handle leads to the path in the database as it is now.
abbrev pub Leads : {P : Platform} → Bytes → World P → Type 0
Leads path t = LastFits (IsNamed path (entries t)) t.sent

module _ {P : Platform} (before : World P) where
  Same-on_net : {A : Type 0} (m : Exec P.net.State A) → Keeps (SameEntries before) (on_net m)
  unfolding on_net
  Same-on_net m = record { at = λ w h. record { at = h.at } }

  Same-sys : {A : Type 0} (f : P.os.State → A × P.os.State) → Keeps (SameEntries before) (sys f)
  unfolding sys
  Same-sys f = record { at = λ w h. record { at = h.at } }

  Same-log_sent : (m : Sent) → Keeps (SameEntries before) (log_sent m)
  unfolding log_sent
  Same-log_sent m = record { at = λ w h. record { at = h.at } }

  pub Same-allocate : (size : ℕ) → Keeps (SameEntries before) (allocate {P = P} size)
  unfolding allocate
  Same-allocate size =
      Keeps-bind _ _ (Same-sys _) (λ room. Keeps-if room _ _ (Keeps-pure tt) Keeps-err_exit)

  Same-reply :
      (sock : ℕ) (rep : Rep) (size : ℕ)
      → Keeps (SameEntries before) (reply_with {P = P} sock rep size)
  unfolding reply_with send_reply
  Same-reply sock rep size =
      Keeps-bind _ _
        (Keeps-bind _ _ (Same-on_net _) (λ d. Keeps-bind _ _ (Same-log_sent _) (λ _. Keeps-pure d)))
        (λ d. Keeps-pure tt)

module _ {P : Platform} (sock : ℕ) (Q : Entries → Rep → Type 0) where
  Now-of_same : (t u : World P) → LastFits (Q (entries t)) u.sent → SameEntries t u → Now Q u
  Now-of_same t u h same = subst (λ g. LastFits (Q g) u.sent) (fun_ext λ k. sym (same.at k)) h

  pub reply-Now :
      (rep : Rep) (size : ℕ) (t : World P)
      → Q (entries t) rep
      → Post (λ _ u. Now Q u) (reply_with sock rep size t)
  reply-Now rep size t h =
      Post-mono (λ _ u. LastFits (Q (entries t)) u.sent × SameEntries t u) (λ _ u. Now Q u)
        (reply_with sock rep size t) (λ _ u k. Now-of_same t u k.0 k.1)
        (Post-and (λ _ u. LastFits (Q (entries t)) u.sent) (λ _ u. SameEntries t u)
          (reply_with sock rep size t) ((Says-reply sock rep size h).at t)
          (Post-of_Keeps (SameEntries t) (reply_with sock rep size) t (Same-reply t sock rep size)
            (same_as t)))

  module _ (errs : (g : Entries) (e : SnfsError) → Q g (error_rep e)) where
    pub error-Now : (e : SnfsError) (t : World P) → Post (λ _ u. Now Q u) (handle_error sock e t)
    unfolding handle_error
    error-Now e t = reply-Now _ _ t (errs _ e)

    -- The two ways on from a system call.
    result-Now :
        {A : Type 0} (r : Sys A) (err : ℕ → SnfsError) (g : A → Server P (Unit {0})) (t : World P)
        → ((a : A) → Post (λ _ u. Now Q u) (g a t))
        → Post (λ _ u. Now Q u) (checked r (λ e. handle_error sock (err e)) g t)
    unfolding checked
    result-Now (ok a) err g t k = k a
    result-Now (fail e) err g t k = error-Now (err e) t

    pub called-Now :
        {A : Type 0} (w : World P) (f : P.os.State → Sys A × P.os.State) (err : ℕ → SnfsError)
        (g : A → Server P (Unit {0})) (t : World P)
        → SameEntries w t
        → ((a : A) (u : World P) → SameEntries w u → Post (λ _ v. Now Q v) (g a u))
        → Post (λ _ u. Now Q u) ((sys f >>= λ r. checked r (λ e. handle_error sock (err e)) g) t)
    called-Now w f err g t same k =
        Post-bind (λ _ u. SameEntries w u) (λ _ u. Now Q u) (sys f) _ t
          (Post-of_Keeps (SameEntries w) (sys f) t (Same-sys w f) same)
          (λ r u s. result-Now r err g u (λ a. k a u s))

    -- The two ways on from the search for a handle, of which one is open.
    Found-Now :
        (g : Bytes → Server P (Unit {0})) (buffer : Bytes) (a : Option Bytes) (t : World P)
        → as_sys a ≡ ok buffer
        → Post (λ _ u. Now Q u) (g buffer t)
        → Post (λ _ u. Now Q u) (given a (handle_error sock SnfsError.enoent) g t)
    unfolding given
    Found-Now g buffer none t e k = absurd cc
    Found-Now g buffer (some v) t e k = let whole : v ≡ buffer = cc in rw whole k

    -- The path of a handle that has one.
    pub get_file-Now :
        (D : IsLawfulDb P.database) (w : World P) (h : Fhandle) (g : Bytes → Server P (Unit {0}))
        (buffer : Bytes)
        → entries w (handle_key h) ≡ ok buffer
        → ((t : World P) → SameEntries w t → Post (λ _ u. Now Q u) (g buffer t))
        → Post
            (λ _ u. Now Q u)
            ((get_file P h >>= λ found. given found (handle_error sock SnfsError.enoent) g) w)
    unfolding get_file
    get_file-Now D w h g buffer e k =
        Post-bind (Found w (handle_key h)) (λ _ t. Now Q t) (find P (handle_key h)) _ w
          (find-Post D (handle_key h) w)
          (λ a t found. Found-Now g buffer a t (sym found.value ∙ e) (k t found.same))
