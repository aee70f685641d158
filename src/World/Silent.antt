-- ===== src/World/Silent.antt =====
-- Programs that hand no reply to `send_data`: the log of replies is what it was.
use stanford_cs240_sp21_labs.Base.{Bool, List, suc, zero, ℕ, ◌≡◌}
use stanford_cs240_sp21_labs.Base.Bytes.{Bytes}
use stanford_cs240_sp21_labs.Base.Exec.{Exec}
use stanford_cs240_sp21_labs.Base.Exec.Keeps.{Keeps, Keeps-bind, Keeps-given, Keeps-pure}
use stanford_cs240_sp21_labs.Base.Exec.Keeps.{keeps_rules}
use stanford_cs240_sp21_labs.Fhandledb.{find, generate_new_fhandle, get_file, handle_key}
use stanford_cs240_sp21_labs.Fhandledb.{init_db_if_needed, insert, name_find_or_insert}
use stanford_cs240_sp21_labs.Fhandledb.{name_remove, new_fhandle}
use stanford_cs240_sp21_labs.Platform.{Platform}
use stanford_cs240_sp21_labs.Proto.{Fhandle}
use stanford_cs240_sp21_labs.World.{Sent, World, on_db, on_net, set_dbp, sys}

module _ {P : Platform} (log : List Sent) where
  -- The log is `log`.
  pub record Logged (w : World P) : Type 0 where
    pub same : w.sent ≡ log

module _ {P : Platform} {log : List Sent} where
  pub Silent-sys :
      {A : Type 0} (f : P.os.State → A × P.os.State) → Keeps (Logged {P = P} log) (sys f)
  unfolding sys
  Silent-sys f = record { at = λ w h. record { same = h.same } }

  pub Silent-on_db :
      {A : Type 0} (f : P.database.State → A × P.database.State)
      → Keeps (Logged {P = P} log) (on_db f)
  unfolding on_db
  Silent-on_db f = record { at = λ w h. record { same = h.same } }

  pub Silent-on_net : {A : Type 0} (m : Exec P.net.State A) → Keeps (Logged {P = P} log) (on_net m)
  unfolding on_net
  Silent-on_net m = record { at = λ w h. record { same = h.same } }

  pub Silent-set_dbp : (b : Bool) → Keeps (Logged {P = P} log) (set_dbp b)
  unfolding set_dbp
  Silent-set_dbp b = record { at = λ w h. record { same = h.same } }

pub ruleset silent_rules = (keeps_rules, Silent-sys, Silent-on_db, Silent-on_net, Silent-set_dbp)

module _ {P : Platform} {log : List Sent} where
  Silent-init : Keeps (Logged {P = P} log) (init_db_if_needed P)
  unfolding init_db_if_needed
  Silent-init = search silent_rules depth 20

  pub Silent-find : (key : Bytes) → Keeps (Logged {P = P} log) (find P key)
  unfolding find
  Silent-find key = search (silent_rules, Silent-init) depth 20

  pub Silent-name_remove : (name : Bytes) → Keeps (Logged {P = P} log) (name_remove P name)
  unfolding name_remove
  Silent-name_remove name = search (silent_rules, Silent-init, Silent-find) depth 20

  Silent-insert : (key value : Bytes) → Keeps (Logged {P = P} log) (insert P key value)
  unfolding insert
  Silent-insert key value = search (silent_rules, Silent-init) depth 20

  Silent-generate : (rounds : ℕ) → Keeps (Logged {P = P} log) (generate_new_fhandle P rounds)
  unfolding generate_new_fhandle
  Silent-generate zero = search silent_rules
  Silent-generate (suc rounds) = Keeps-bind _ _ (Silent-sys _) (λ r.
      Keeps-bind _ _ (Silent-find _)
        (λ found. Keeps-given found _ _ (Keeps-pure _) (λ _. Silent-generate rounds)))

  pub Silent-name_find_or_insert :
      (name : Bytes) → Keeps (Logged {P = P} log) (name_find_or_insert P name)
  unfolding name_find_or_insert new_fhandle
  Silent-name_find_or_insert name =
      search (silent_rules, Silent-find, Silent-insert, Silent-generate) depth 20

  pub Silent-get_file : (h : Fhandle) → Keeps (Logged {P = P} log) (get_file P h)
  unfolding get_file
  Silent-get_file h = Silent-find (handle_key h)
