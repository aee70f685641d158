-- ===== src/Server/Handles.antt =====
-- The handlers of lab2/src/server/handlers.c and the pairing of the database of handles: the
-- notion, with a rule for each function that they call.
pub mod Handlers
pub mod Run
use stanford_cs240_sp21_labs.Base.{Bool, Bool-cases, [], arith, inl, inr, suc, zero, ℕ, ◌++◌}
use stanford_cs240_sp21_labs.Base.{◌||◌, ◌∷◌}
use stanford_cs240_sp21_labs.Base.Bytes.{Bytes, NoNul}
use stanford_cs240_sp21_labs.Base.Exec.{Exec, Sys}
use stanford_cs240_sp21_labs.Base.Exec.Post.{Post-mono, Post-of_final}
use stanford_cs240_sp21_labs.Base.Exec.Preserves.{Preserves, Preserves-bind, Preserves-checked}
use stanford_cs240_sp21_labs.Base.Exec.Preserves.{Preserves-given, Preserves-pure}
use stanford_cs240_sp21_labs.Base.Exec.Preserves.{preserves_rules}
use stanford_cs240_sp21_labs.Fhandledb.{find, get_file, handle_key, name_find_or_insert}
use stanford_cs240_sp21_labs.Fhandledb.{name_remove}
use stanford_cs240_sp21_labs.Fhandledb.Entries.{IsHandleDb, IsHandleDb-of_same}
use stanford_cs240_sp21_labs.Fhandledb.Insert.{Named, name_find_or_insert-Post}
use stanford_cs240_sp21_labs.Fhandledb.Laws.{Found, entries, find-Post}
use stanford_cs240_sp21_labs.Fhandledb.Remove.{Removed, name_remove-Post}
use stanford_cs240_sp21_labs.Platform.{Platform}
use stanford_cs240_sp21_labs.Platform.Laws.{DrawsHandles, IsLawfulDb}
use stanford_cs240_sp21_labs.Proto.{Fhandle, Rep, SetattrArgs, SnfsError}
use stanford_cs240_sp21_labs.Server.Files.{ends_with_slash, join_path, starts_with_slash}
use stanford_cs240_sp21_labs.Server.Readdir.{read_entries}
use stanford_cs240_sp21_labs.Server.Reply.{allocate, handle_error, reply_with, send_reply}
use stanford_cs240_sp21_labs.Server.Setattr.{set_attribute, set_attributes, set_times}
use stanford_cs240_sp21_labs.World.{Sent, Server, World, log_sent, on_net, sys}

-- The invariant, as a predicate on the server's state.
pub record HasHandleDb {P : Platform} (w : World P) : Type 0 where
  pub db : IsHandleDb (entries w)

NoNul-append : (s t : Bytes) → NoNul s → NoNul t → NoNul (s ++ t)
NoNul-append [] t hs ht = ht
NoNul-append (b ∷ s) t hs ht = (hs.0, NoNul-append s t hs.1 ht)

pub join_path-NoNul : (d n : Bytes) → NoNul d → NoNul n → NoNul (join_path d n)
unfolding join_path
join_path-NoNul d n hd hn = elim (Bool-cases (ends_with_slash d || starts_with_slash n)) [
  | inl p ↦ rw p (NoNul-append d n hd hn)
  | inr p ↦ rw p (NoNul-append d (b'/' ∷ n) hd (omega arith, hn))
]

module _ {P : Platform} where
  pub Handles-sys :
      {A : Type 0} (f : P.os.State → A × P.os.State) → Preserves (HasHandleDb {P = P}) (sys f)
  unfolding sys
  Handles-sys f = record { at = λ w h. record { db = h.db } }

  pub Handles-on_net :
      {A : Type 0} (m : Exec P.net.State A) → Preserves (HasHandleDb {P = P}) (on_net m)
  unfolding on_net
  Handles-on_net m = record {
    at = λ w h. let (r, s) = m w.net in Post-of_final HasHandleDb r _ (record { db = h.db });
  }

  pub Handles-log : (m : Sent) → Preserves (HasHandleDb {P = P}) (log_sent m)
  unfolding log_sent
  Handles-log m = record { at = λ w h. record { db = h.db } }

  pub Handles-reply :
      (sock : ℕ) (rep : Rep) (size : ℕ) → Preserves (HasHandleDb {P = P}) (reply_with sock rep size)
  unfolding reply_with send_reply
  Handles-reply sock rep size =
      Preserves-bind _ _
        (Preserves-bind _ _ (Handles-on_net _)
          (λ d. Preserves-bind _ _ (Handles-log _) (λ _. Preserves-pure d)))
        (λ d. Preserves-pure tt)

  pub Handles-error :
      (sock : ℕ) (e : SnfsError) → Preserves (HasHandleDb {P = P}) (handle_error sock e)
  unfolding handle_error
  Handles-error sock e = Handles-reply sock _ _

  pub Handles-allocate : (n : ℕ) → Preserves (HasHandleDb {P = P}) (allocate n)
  unfolding allocate
  Handles-allocate n = search (preserves_rules, Handles-sys) depth 20

  pub Handles-read_entries :
      (room dir : ℕ) → Preserves (HasHandleDb {P = P}) (read_entries room dir)
  unfolding read_entries
  Handles-read_entries zero dir = search (preserves_rules, Handles-sys) depth 20
  Handles-read_entries (suc room) dir = Preserves-bind _ _ (Handles-sys _) (λ next.
      Preserves-checked next _ _ (λ e. Preserves-pure _)
        (λ entry.
          Preserves-given entry _ _ (Preserves-pure _)
            (λ e. Preserves-bind _ _ (Handles-read_entries room dir) (λ rest. Preserves-pure _))))

  pub Handles-set_attribute :
      (b : Bool) (bit : ℕ) (call : Server P (Sys (Unit {0}))) (n : ℕ)
      → Preserves (HasHandleDb {P = P}) call
      → Preserves (HasHandleDb {P = P}) (set_attribute b bit call n)
  unfolding set_attribute
  Handles-set_attribute b bit call n kept = search preserves_rules depth 20

  pub Handles-set_times :
      (path : Bytes) (args : SetattrArgs) → Preserves (HasHandleDb {P = P}) (set_times path args)
  unfolding set_times
  Handles-set_times path args = search (preserves_rules, Handles-sys) depth 20

  pub Handles-set_attributes :
      (path : Bytes) (args : SetattrArgs)
      → Preserves (HasHandleDb {P = P}) (set_attributes path args)
  unfolding set_attributes
  Handles-set_attributes path args =
      search (preserves_rules, Handles-sys, Handles-set_attribute, Handles-set_times) depth 20

pub ruleset handles_rules = (
  Handles-sys, Handles-reply, Handles-error, Handles-allocate, Handles-read_entries,
  Handles-set_attributes,
)

module _ {P : Platform} (D : IsLawfulDb P.database) (R : DrawsHandles P.os) where
  pub Handles-get_file : (h : Fhandle) → Preserves (HasHandleDb {P = P}) (get_file P h)
  unfolding get_file
  Handles-get_file h = record {
    at = λ w ok_w.
        Post-mono (Found w (handle_key h)) (λ _ t. HasHandleDb t) (find P (handle_key h) w)
          (λ r t found. record {
            db = IsHandleDb-of_same (entries w) (entries t) found.same.at ok_w.db;
          })
          (find-Post D (handle_key h) w);
  }

  pub Handles-name :
      (n : Bytes) → NoNul n → Preserves (HasHandleDb {P = P}) (name_find_or_insert P n)
  Handles-name n plain = record {
    at = λ w ok_w.
        Post-mono (Named w n) (λ _ t. HasHandleDb t) (name_find_or_insert P n w)
          (λ h t named. record { db = named.db }) (name_find_or_insert-Post D R w n plain ok_w.db);
  }

  pub Handles-remove : (n : Bytes) → NoNul n → Preserves (HasHandleDb {P = P}) (name_remove P n)
  Handles-remove n plain = record {
    at = λ w ok_w.
        Post-mono (Removed w n) (λ _ t. HasHandleDb t) (name_remove P n w)
          (λ b t removed. record { db = removed.db }) (name_remove-Post D w n plain ok_w.db);
  }
