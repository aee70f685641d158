-- ===== src/Start/Jail.antt =====
-- The server of lab2 before it serves.
use stanford_cs240_sp21_labs.Base.{Bool-cases, ap, inl, inr, refl, true, ℕ, ◌==◌, ◌≡◌, ◌⊎◌}
use stanford_cs240_sp21_labs.Base.Bytes.{Bytes}
use stanford_cs240_sp21_labs.Base.Exec.{Sys, checked, exited, fail, ok, ◌>>=◌}
use stanford_cs240_sp21_labs.Base.Int.{ℤ}
use stanford_cs240_sp21_labs.Fhandledb.{init_db_if_needed}
use stanford_cs240_sp21_labs.Platform.{Platform}
use stanford_cs240_sp21_labs.Proto.{Fattr}
use stanford_cs240_sp21_labs.Start.Number.{tcp_url}
use stanford_cs240_sp21_labs.Start.Server.{Boot, ServerOptions, move_to, serve_at}
use stanford_cs240_sp21_labs.Start.Server.{serve_directory, serve_in}
use stanford_cs240_sp21_labs.World.{Server, World, on_db, set_dbp, sys}

module _ {P : Platform} (B : Boot P) (stack : Fattr) where
  -- The process has ended, and the network is as it was.
  abbrev pub EndsQuietly : Server P (Unit {0}) → World P → Type 0
  EndsQuietly m w =
      (c : ℕ) × (w' : World P) × (m w ≡ (exited c, w')) × (w'.net ≡ w.net) × (w'.sent ≡ w.sent)

  -- `chroot` to the path has succeeded, the database is open, the signal handler is set, and the
  -- network is as it was: `serve_at` comes next.
  abbrev pub ServesIn : ℤ → Bytes → Server P (Unit {0}) → World P → Type 0
  ServesIn port path m w =
      (w' : World P) × (before : P.os.State) × (m w ≡ serve_at B stack (tcp_url port) w')
      × (w'.net ≡ w.net)
      × (w'.sent ≡ w.sent)
      × (w'.dbp ≡ true)
      × ((B.chroot path before).0 ≡ ok tt)
      × (w'.os ≡ B.sigaction (B.chroot path before).1)

  -- The path is the full path of the directory, and `chdir` to it has succeeded.
  abbrev pub IsPathOf : Bytes → Bytes → Type 0
  IsPathOf mount path =
      ((s : P.os.State) × ((B.realpath mount s).0 ≡ ok path))
      × ((s : P.os.State) × ((B.chdir path s).0 ≡ ok tt))

  -- The database, where it is opened.
  module _ (w : World P) (k : Server P (Unit {0})) where
    init_cases :
        EndsQuietly (init_db_if_needed P >>= λ _. k) w
        ⊎ (w' : World P) × ((init_db_if_needed P >>= λ _. k) w ≡ k w')
          × (w'.net ≡ w.net)
          × (w'.sent ≡ w.sent)
          × (w'.os ≡ w.os)
          × (w'.dbp ≡ true)
    unfolding init_db_if_needed ◌>>=◌ on_db set_dbp
    init_cases = elim (Bool-cases w.dbp) [
      | inl open_already ↦ inr (w, rw open_already refl, refl, refl, refl, open_already)
      | inr closed ↦
          let made = P.database.create w.db in
          elim (Bool-cases (made.0 == 0)) [
            | inr failed ↦ inl (1, record w { db = made.1 }, rw (closed, failed) refl, refl, refl)
            | inl created ↦
                let opened = P.database.open_file made.1 in
                elim (Bool-cases (opened.0 == 0)) [
                  | inr failed ↦
                      inl (
                        1,
                        record w { db = opened.1 },
                        rw (closed, created, failed) refl,
                        refl,
                        refl,
                      )
                  | inl loaded ↦ inr (
                    record w { db = opened.1; dbp = true },
                    rw (closed, created, loaded) refl,
                    refl,
                    refl,
                    refl,
                    refl,
                  )
                ]
          ]
    ]

  -- From the change of the root on.
  serve_in-ServesIn :
      (opts : ServerOptions) (path : Bytes) (w : World P)
      → EndsQuietly (serve_in B stack opts path) w
        ⊎ ServesIn opts.port path (serve_in B stack opts path) w
  unfolding serve_in ◌>>=◌ sys checked
  serve_in-ServesIn opts path w = jailed (B.chroot path w.os).0 refl
    where
      jailed :
          (r : Sys (Unit {0}))
          → (B.chroot path w.os).0 ≡ r
          → EndsQuietly (serve_in B stack opts path) w
            ⊎ ServesIn opts.port path (serve_in B stack opts path) w
      jailed (fail e) q = inl (1, record w { os = (B.chroot path w.os).1 }, rw q refl, refl, refl)
      jailed (ok u) q =
          let inside : World P = record w { os = (B.chroot path w.os).1 } in
          let rest : Server P (Unit {0}) =
            sys (λ s. (tt, B.sigaction s)) >>= λ _. serve_at B stack (tcp_url opts.port) in
          elim (init_cases inside rest) [
            | inl (c, w', e, net, sent) ↦ inl (c, w', rw q e, net, sent)
            | inr (w', e, net, sent, os, db) ↦ inr (
              record w' { os = B.sigaction w'.os },
              w.os,
              rw q e,
              net,
              sent,
              db,
              q,
              ap B.sigaction os,
            )
          ]

  move_to-ServesIn :
      (opts : ServerOptions) (path : Bytes) (w : World P)
      → EndsQuietly (move_to B stack opts path) w
        ⊎ ServesIn opts.port path (move_to B stack opts path) w
          × ((s : P.os.State) × ((B.chdir path s).0 ≡ ok tt))
  unfolding move_to ◌>>=◌ sys checked
  move_to-ServesIn opts path w = moved (B.chdir path w.os).0 refl
    where
      moved :
          (r : Sys (Unit {0}))
          → (B.chdir path w.os).0 ≡ r
          → EndsQuietly (move_to B stack opts path) w
            ⊎ ServesIn opts.port path (move_to B stack opts path) w
              × ((s : P.os.State) × ((B.chdir path s).0 ≡ ok tt))
      moved (fail e) q = inl (1, record w { os = (B.chdir path w.os).1 }, rw q refl, refl, refl)
      moved (ok u) q =
          elim (serve_in-ServesIn opts path (record w { os = (B.chdir path w.os).1 })) [
            | inl (c, w', e, net, sent) ↦ inl (c, w', rw q e, net, sent)
            | inr (w', before, e, net, sent, db, root, os) ↦
                inr ((w', before, rw q e, net, sent, db, root, os), (w.os, q))
          ]

  -- From the search for the directory on.
  abbrev pub Outcomes : Bytes → ℤ → Server P (Unit {0}) → World P → Type 0
  Outcomes mount port m w =
      EndsQuietly m w ⊎ (path : Bytes) × ServesIn port path m w × IsPathOf mount path

  pub serve_directory-Outcomes :
      (opts : ServerOptions) (mount : Bytes) (w : World P)
      → Outcomes mount opts.port (serve_directory B stack opts mount) w
  unfolding serve_directory ◌>>=◌ sys checked
  serve_directory-Outcomes opts mount w = found (P.os.opendir mount w.os).0 refl
    where
      stirred : P.os.State
      stirred = B.arc4random_stir (P.os.opendir mount w.os).1

      resolved :
          (d : ℕ) (r : Sys Bytes)
          → (P.os.opendir mount w.os).0 ≡ ok d
          → (B.realpath mount stirred).0 ≡ r
          → Outcomes mount opts.port (serve_directory B stack opts mount) w
      resolved d (fail e) p q =
          inl (1, record w { os = (B.realpath mount stirred).1 }, rw (p, q) refl, refl, refl)
      resolved d (ok path) p q =
          elim (move_to-ServesIn opts path (record w { os = (B.realpath mount stirred).1 })) [
            | inl (c, w', e, net, sent) ↦ inl (c, w', rw (p, q) e, net, sent)
            | inr ((w', before, e, net, sent, db, root, os), moved) ↦
                inr
                  (path, (w', before, rw (p, q) e, net, sent, db, root, os), ((stirred, q), moved))
          ]

      found :
          (r : Sys ℕ)
          → (P.os.opendir mount w.os).0 ≡ r
          → Outcomes mount opts.port (serve_directory B stack opts mount) w
      found (fail e) p =
          inl (1, record w { os = (P.os.opendir mount w.os).1 }, rw p refl, refl, refl)
      found (ok d) p = resolved d (B.realpath mount stirred).0 p refl
