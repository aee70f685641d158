-- ===== src/World.antt =====
-- The state of a server process, and calls from it to the system, the database and the network.
pub mod Silent
use stanford_cs240_sp21_labs.Base.{Bool, List, Option, true, ℕ, ◌∷◌}
use stanford_cs240_sp21_labs.Base.Exec.{Exec, returned}
use stanford_cs240_sp21_labs.Platform.{Platform}
use stanford_cs240_sp21_labs.Proto.{Rep}

-- A reply that was handed to `send_data`, the size that was named, and what came back.
pub record Sent : Type 0 where
  pub rep : Rep
  pub size : ℕ
  pub delivered : Option ℕ

-- `dbp` says whether the pointer DBP is set. `terminated` is the variable that the signal handler
-- sets. `sent` has the newest reply first.
pub record World (P : Platform) : Type 0 where
  pub dbp : Bool
  pub terminated : Bool
  pub db : P.database.State
  pub os : P.os.State
  pub net : P.net.State
  pub sent : List Sent

module _ (P : Platform) where
  abbrev pub Server : Type 0 → Type 0
  Server A = Exec (World P) A

module _ {P : Platform} where
  -- A system call.
  unfoldable pub sys : {A : Type 0} → (P.os.State → A × P.os.State) → Server P A
  sys f w = let (a, s) = f w.os in (returned a, record w { os = s })

  -- A call of the database that may change it.
  unfoldable pub on_db : {A : Type 0} → (P.database.State → A × P.database.State) → Server P A
  on_db f w = let (a, s) = f w.db in (returned a, record w { db = s })

  -- A function of comm.c, which works on the network's state.
  unfoldable pub on_net : {A : Type 0} → Exec P.net.State A → Server P A
  on_net m w = let (r, s) = m w.net in (r, record w { net = s })

  unfoldable pub set_dbp : Bool → Server P (Unit {0})
  set_dbp b w = (returned tt, record w { dbp = b })

  unfoldable pub set_terminated : Server P (Unit {0})
  set_terminated w = (returned tt, record w { terminated = true })

  unfoldable pub log_sent : Sent → Server P (Unit {0})
  log_sent m w = (returned tt, record w { sent = m ∷ w.sent })
