-- ===== src/Server/Sigterm.antt =====
-- The server's loop and SIGTERM (lab2/src/server/main.c and fhandledb.c).
use stanford_cs240_sp21_labs.Base.{Bool, Bool-cases, false, inl, inr, refl, suc, true, ℕ, ◌==◌}
use stanford_cs240_sp21_labs.Base.{◌∙◌, ◌≡◌, ◌⊎◌}
use stanford_cs240_sp21_labs.Base.Exec.{exited, returned, ◌>>=◌}
use stanford_cs240_sp21_labs.Fhandledb.{destroy_db}
use stanford_cs240_sp21_labs.Platform.{Platform}
use stanford_cs240_sp21_labs.Proto.{Fattr}
use stanford_cs240_sp21_labs.Server.Loop.{net_call, serve_loop, serve_once, sigterm_handler}
use stanford_cs240_sp21_labs.Server.Loop.{take_signal}
use stanford_cs240_sp21_labs.World.{World, on_db, on_net, set_dbp, set_terminated, sys}

module _ {P : Platform} where
  -- The signal has been raised, or it was taken before.
  abbrev pub IsTold : World P → Type 0
  IsTold w = (w.terminated ≡ true) ⊎ ((P.os.sigterm w.os).0 ≡ true)

  -- The round leaves the loop, and no reply is sent.
  told_once :
      (stack : Fattr) (sock : ℕ) (w : World P)
      → IsTold w
      → (t : World P) × ((serve_once stack sock w ≡ (returned false, t)) × (t.sent ≡ w.sent))
  unfolding serve_once take_signal sigterm_handler set_terminated sys on_net net_call ◌>>=◌
  told_once stack sock w told = elim (Bool-cases (P.os.sigterm w.os).0) [
    | inl raised ↦ rw raised (_, (refl, refl))
    | inr quiet ↦ elim told [
      | inl before ↦ rw (quiet, before) (_, (refl, refl))
      | inr raised ↦ absurd cc
    ]
  ]

  destroy_db-Returns :
      (w : World P)
      → (b : Bool) × (((destroy_db P false w).0 ≡ returned b)
          × ((destroy_db P false w).1.sent ≡ w.sent))
  unfolding destroy_db on_db set_dbp ◌>>=◌
  destroy_db-Returns w = elim (Bool-cases w.dbp) [
    | inl opened ↦ elim (Bool-cases ((P.database.close w.db).0 == 0)) [
      | inl closed ↦ rw (opened, closed) (true, (refl, refl))
      | inr failed ↦ rw (opened, failed) (false, (refl, refl))
    ]
    | inr closed ↦ rw closed (true, (refl, refl))
  ]

  -- If SIGTERM has come, the server's loop ends the process with status 0 in the round that it is in,
  -- and sends no more reply, whatever the network and the database do.
  pub serve_loop-IsTold :
      (stack : Fattr) (sock rounds : ℕ) (w : World P)
      → IsTold w
      → ((serve_loop stack sock (suc rounds) w).0 ≡ exited 0)
        × ((serve_loop stack sock (suc rounds) w).1.sent ≡ w.sent)
  unfolding serve_loop net_call on_net ◌>>=◌
  serve_loop-IsTold stack sock rounds w told =
      let (t, (e, same)) = told_once stack sock w told in
      let shut = (P.net.nn_shutdown sock 0 t.net).1 in
      let u : World P = record t { net = (P.net.nn_close sock shut).1 } in
      let (b, (gone, kept)) = destroy_db-Returns u in rw (e, gone) (refl, kept ∙ same)
