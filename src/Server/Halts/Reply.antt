-- ===== src/Server/Halts/Reply.antt =====
-- Termination of what the handlers of lab2/src/server/handlers.c share: replies, `malloc`, and the
-- tests of a system call and of a handle.
use stanford_cs240_sp21_labs.Base.{Bool, Option, false, if◌then◌else◌, none, true, ℕ, ◌≤◌}
use stanford_cs240_sp21_labs.Base.Bytes.{Bytes}
use stanford_cs240_sp21_labs.Base.Exec.{Sys, checked, err_exit, given, pure, ◌>>=◌}
use stanford_cs240_sp21_labs.Comm.{send_data}
use stanford_cs240_sp21_labs.Comm.Ends.{ClockRuns, send_data-Returns}
use stanford_cs240_sp21_labs.Fhandledb.{get_file}
use stanford_cs240_sp21_labs.Platform.{Packet, Platform, nn_dontwait, reply}
use stanford_cs240_sp21_labs.Platform.Laws.{IsLawfulDb}
use stanford_cs240_sp21_labs.Proto.{Fhandle, Rep, SnfsError}
use stanford_cs240_sp21_labs.Server.Data.{error_and_close}
use stanford_cs240_sp21_labs.Server.Halts.{Halts, Halts-bind, Halts-checked, Halts-given}
use stanford_cs240_sp21_labs.Server.Halts.{Halts-pure, Halts-sys, Halts-then, Steps, Steps-bind}
use stanford_cs240_sp21_labs.Server.Halts.{Steps-sys}
use stanford_cs240_sp21_labs.Server.Halts.Database.{get_file-Steps}
use stanford_cs240_sp21_labs.Server.Reply.{allocate, handle_error, reply_with, send_reply}
use stanford_cs240_sp21_labs.World.{Sent, Server, World, log_sent, on_net, sys}

module _ {P : Platform} (C : ClockRuns P.net) (enough : 1834 ≤ P.rounds) where
  Halts-send :
      {o : Option (World P)} (sock : ℕ) (p : Packet) (size flags : ℕ)
      → Halts o (on_net {P = P} (send_data P.net P.rounds sock p size flags))
  unfolding on_net
  Halts-send sock p size flags = record {
    at = λ w k.
        let (a, e) = send_data-Returns P.net C P.rounds sock p size flags w.net enough in rw e tt;
  }

  Halts-log : (m : Sent) (d : Option ℕ) → Halts {P = P} none (log_sent m >>= λ _. pure d)
  unfolding log_sent ◌>>=◌
  Halts-log m d = record { at = λ w k. tt }

  pub Halts-reply :
      {o : Option (World P)} (sock : ℕ) (rep : Rep) (size : ℕ)
      → Halts o (reply_with {P = P} sock rep size)
  unfolding reply_with send_reply
  Halts-reply sock rep size =
      Halts-then _ _
        (Halts-then _ _ (Halts-send sock (reply rep) size nn_dontwait) (λ d. Halts-log _ d))
        (λ d. Halts-pure tt)

  pub Halts-error :
      {o : Option (World P)} (sock : ℕ) (e : SnfsError) → Halts o (handle_error {P = P} sock e)
  unfolding handle_error
  Halts-error sock e = Halts-reply sock _ _

  pub Halts-close :
      {o : Option (World P)} (m : Server P (Unit {0})) (fd : ℕ)
      → Halts o m
      → Halts o (m >>= λ _. sys (P.os.close fd) >>= λ _. pure tt)
  Halts-close m fd h = Halts-then _ _ h (λ _. Halts-then _ _ (Halts-sys _) (λ _. Halts-pure tt))

  pub Halts-error_and_close :
      {o : Option (World P)} (sock fd : ℕ) (e : SnfsError)
      → Halts o (error_and_close {P = P} sock fd e)
  unfolding error_and_close
  Halts-error_and_close sock fd e = Halts-close _ fd (Halts-error sock e)

module _ {P : Platform} where
  Steps-room :
      {o : Option (World P)} (room : Bool)
      → Steps o (if room then pure {S = World P} tt else err_exit)
  Steps-room true = record { at = λ w k. (tt, k) }
  Steps-room false = record { at = λ w k. (tt, k) }

  pub Steps-allocate : {o : Option (World P)} (size : ℕ) → Steps o (allocate {P = P} size)
  unfolding allocate
  Steps-allocate size = Steps-bind _ _ (Steps-sys _) (λ room. Steps-room room)

module _ {P : Platform} (C : ClockRuns P.net) (enough : 1834 ≤ P.rounds) (sock : ℕ)
    {o : Option (World P)} where
  -- A system call, an error reply if it fails, and the rest.
  pub called-Halts :
      {A : Type 0} (f : P.os.State → Sys A × P.os.State) (err : ℕ → SnfsError)
      (g : A → Server P (Unit {0}))
      → ((a : A) → Halts o (g a))
      → Halts o (sys f >>= λ r. checked r (λ e. handle_error sock (err e)) g)
  called-Halts f err g h =
      Halts-bind _ _ (Steps-sys f)
        (λ r. Halts-checked r _ g (λ e. Halts-error C enough sock (err e)) h)

  -- The path of a handle, an error reply if it has none, and the rest.
  pub of_file-Halts :
      IsLawfulDb P.database
      → (h : Fhandle) (g : Bytes → Server P (Unit {0})) → ((buffer : Bytes) → Halts o (g buffer))
      → Halts o (get_file P h >>= λ found. given found (handle_error sock SnfsError.enoent) g)
  of_file-Halts D h g k =
      Halts-bind _ _ (get_file-Steps D o h)
        (λ found. Halts-given found _ g (Halts-error C enough sock SnfsError.enoent) k)
