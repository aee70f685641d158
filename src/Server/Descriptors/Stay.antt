-- ===== src/Server/Descriptors/Stay.antt =====
-- What the handlers of lab2/src/server/handlers.c call that opens and closes nothing.
use stanford_cs240_sp21_labs.Base.{Bool, suc, zero, ℕ, ◌∙◌, ◌≡◌}
use stanford_cs240_sp21_labs.Base.Bytes.{Bytes}
use stanford_cs240_sp21_labs.Base.Exec.{Exec, ◌>>=◌}
use stanford_cs240_sp21_labs.Base.Exec.Post.{Post-mono, Post-of_final}
use stanford_cs240_sp21_labs.Base.Exec.Preserves.{Preserves, Preserves-bind, Preserves-given}
use stanford_cs240_sp21_labs.Base.Exec.Preserves.{Preserves-pure, preserves_rules}
use stanford_cs240_sp21_labs.Fhandledb.{find, generate_new_fhandle, get_file, init_db_if_needed}
use stanford_cs240_sp21_labs.Fhandledb.{insert, name_find_or_insert, name_remove, new_fhandle}
use stanford_cs240_sp21_labs.Platform.{Platform}
use stanford_cs240_sp21_labs.Platform.Laws.{TellsOpen}
use stanford_cs240_sp21_labs.Proto.{Fhandle, Rep, SnfsError}
use stanford_cs240_sp21_labs.Server.Descriptors.{Goes, OpenAre}
use stanford_cs240_sp21_labs.Server.Reply.{allocate, handle_error, reply_with, send_reply}
use stanford_cs240_sp21_labs.World.{Sent, Server, World, log_sent, on_db, on_net, set_dbp, sys}

-- The descriptors that are open, as a predicate on the server's state.
pub record StayOpen (P : Platform) (T : TellsOpen P.os) (f : ℕ → Bool) (w : World P) : Type 0 where
  pub at : OpenAre T f w

module _ {P : Platform} (T : TellsOpen P.os) (f : ℕ → Bool) where
  pub Stay-sys :
      {A : Type 0} (c : P.os.State → A × P.os.State)
      → ((s : P.os.State) (x : ℕ) → T.is_open (c s).1 x ≡ T.is_open s x)
      → Preserves (StayOpen P T f) (sys c)
  unfolding sys
  Stay-sys c same = record { at = λ w h. record { at = λ x. same w.os x ∙ h.at x } }

  Stay-on_net : {A : Type 0} (m : Exec P.net.State A) → Preserves (StayOpen P T f) (on_net m)
  unfolding on_net
  Stay-on_net m = record {
    at = λ w h.
        Post-of_final (StayOpen P T f) (m w.net).0 (record w { net = (m w.net).1 })
          (record { at = h.at });
  }

  Stay-log_sent : (m : Sent) → Preserves (StayOpen P T f) (log_sent m)
  unfolding log_sent
  Stay-log_sent m = record { at = λ w h. record { at = h.at } }

  Stay-on_db :
      {A : Type 0} (c : P.database.State → A × P.database.State)
      → Preserves (StayOpen P T f) (on_db c)
  unfolding on_db
  Stay-on_db c = record { at = λ w h. record { at = h.at } }

  Stay-set_dbp : (b : Bool) → Preserves (StayOpen P T f) (set_dbp b)
  unfolding set_dbp
  Stay-set_dbp b = record { at = λ w h. record { at = h.at } }

  Stay-init : Preserves (StayOpen P T f) (init_db_if_needed P)
  unfolding init_db_if_needed ◌>>=◌ on_db set_dbp
  Stay-init = search (preserves_rules, Stay-on_db, Stay-set_dbp) depth 25

  Stay-find : (key : Bytes) → Preserves (StayOpen P T f) (find P key)
  unfolding find
  Stay-find key = search (preserves_rules, Stay-init) depth 25

  Stay-insert : (key value : Bytes) → Preserves (StayOpen P T f) (insert P key value)
  unfolding insert
  Stay-insert key value = search (preserves_rules, Stay-init, Stay-on_db) depth 25

  Stay-generate : (n : ℕ) → Preserves (StayOpen P T f) (generate_new_fhandle P n)
  unfolding generate_new_fhandle
  Stay-generate zero = record { at = λ w h. tt }
  Stay-generate (suc n) = Preserves-bind _ _ (Stay-sys P.os.arc4random_u64 T.draws) λ random.
      Preserves-bind _ _ (Stay-find _)
        (λ r. Preserves-given r _ _ (Preserves-pure _) (λ _. Stay-generate n))

  pub Stay-name : (n : Bytes) → Preserves (StayOpen P T f) (name_find_or_insert P n)
  unfolding name_find_or_insert new_fhandle
  Stay-name n = search (preserves_rules, Stay-find, Stay-insert, Stay-generate) depth 25

  pub Stay-remove : (n : Bytes) → Preserves (StayOpen P T f) (name_remove P n)
  unfolding name_remove
  Stay-remove n = search (preserves_rules, Stay-init, Stay-find, Stay-on_db) depth 25

  pub Stay-get_file : (h : Fhandle) → Preserves (StayOpen P T f) (get_file P h)
  unfolding get_file
  Stay-get_file h = Stay-find _

  pub Stay-reply :
      (sock : ℕ) (rep : Rep) (size : ℕ) → Preserves (StayOpen P T f) (reply_with sock rep size)
  unfolding reply_with send_reply
  Stay-reply sock rep size =
      Preserves-bind _ _
        (Preserves-bind _ _ (Stay-on_net _)
          (λ d. Preserves-bind _ _ (Stay-log_sent _) (λ _. Preserves-pure d)))
        (λ d. Preserves-pure tt)

  pub Stay-error : (sock : ℕ) (e : SnfsError) → Preserves (StayOpen P T f) (handle_error sock e)
  unfolding handle_error
  Stay-error sock e = Stay-reply sock _ _

  pub Stay-stat : (path : Bytes) → Preserves (StayOpen P T f) (sys (P.os.stat path))
  Stay-stat path = Stay-sys _ (T.stats path)

  pub Stay-allocate : (n : ℕ) → Preserves (StayOpen P T f) (allocate n)
  unfolding allocate
  Stay-allocate n = Preserves-bind _ _ (Stay-sys _ (T.allocates n)) (λ room. search preserves_rules)

  pub Stay-of_Goes : {A : Type 0} (m : Server P A) → Goes T f f m → Preserves (StayOpen P T f) m
  Stay-of_Goes m goes = record {
    at = λ w h.
        Post-mono (λ _ t. OpenAre T f t) (λ _ t. StayOpen P T f t) (m w)
          (λ a t is. record { at = is }) (goes.at w h.at);
  }

pub ruleset stay_rules = (
  preserves_rules, Stay-name, Stay-remove, Stay-get_file, Stay-reply, Stay-error, Stay-stat,
  Stay-allocate,
)
