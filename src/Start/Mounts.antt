-- ===== src/Start/Mounts.antt =====
-- The options of the client of lab2, and its whole start.
use stanford_cs240_sp21_labs.Base.{Bool, Bool-cases, List, Option, [], ap, false, if◌then◌else◌}
use stanford_cs240_sp21_labs.Base.{inl, inr, none, refl, some, sym, true, ℕ, ◌+◌, ◌==◌, ◌||◌, ◌∙◌}
use stanford_cs240_sp21_labs.Base.{◌∷◌, ◌≡◌, ◌⊎◌}
use stanford_cs240_sp21_labs.Base.Bytes.{Bytes}
use stanford_cs240_sp21_labs.Base.Exec.{Exec, Sys, checked, exited, fail, given, ok, returned}
use stanford_cs240_sp21_labs.Base.Exec.{◌>>=◌}
use stanford_cs240_sp21_labs.Client.State.{Client, Host, with_os}
use stanford_cs240_sp21_labs.Platform.{Platform}
use stanford_cs240_sp21_labs.Start.Client.{ClientOptions, Mount, client_loop, client_main}
use stanford_cs240_sp21_labs.Start.Client.{client_option, default_permissions, fuse_arguments}
use stanford_cs240_sp21_labs.Start.Client.{mount_at, sizeof_client_state, text_d, text_o, text_s}
use stanford_cs240_sp21_labs.Start.Options.{Call, Getopt}
use stanford_cs240_sp21_labs.Start.Server.{argument}

-- Whether an option stands on the command line.
unfoldable pub has_option : ℕ → List Call → Bool
has_option o [] = false
has_option o (c ∷ cs) = c.opt == o || has_option o cs

or_assoc : (a b c : Bool) → ((a || b) || c) ≡ (a || (b || c))
or_assoc true b c = refl
or_assoc false b c = refl

or_true : (a : Bool) → (a || true) ≡ true
or_true true = refl
or_true false = refl

or_false : (a : Bool) → (a || false) ≡ a
or_false true = refl
or_false false = refl

module _ {S : Type 0} (s : S) where
  abbrev Debug : Bool → Exec S ClientOptions → Type 0
  Debug d m =
      ((c : ℕ) × (m s ≡ (exited c, s)))
      ⊎ (opts : ClientOptions) × (m s ≡ (returned opts, s)) × (opts.fuse_debug ≡ d)

  client_option-Debug :
      (c : Call) (opts : ClientOptions)
      → Debug (opts.fuse_debug || c.opt == b'd') (client_option c opts)
  unfolding client_option
  client_option-Debug c opts = elim (Bool-cases (c.opt == b'd')) [
    | inl d ↦
        inr (record opts { fuse_debug = true }, rw d refl, rw d (sym (or_true opts.fuse_debug)))
    | inr not_d ↦ elim (Bool-cases (c.opt == b'h')) [
      | inl h ↦ inl (0, rw (not_d, h) refl)
      | inr not_h ↦ elim (Bool-cases (c.opt == b'v')) [
        | inl v ↦ inr (
          record opts { verbose = true },
          rw (not_d, not_h, v) refl,
          rw not_d (sym (or_false opts.fuse_debug)),
        )
        | inr not_v ↦ inl (1, rw (not_d, not_h, not_v) refl)
      ]
    ]
  ]

  client_loop-Debug :
      (cs : List Call) (opts : ClientOptions)
      → Debug (opts.fuse_debug || has_option b'd' cs) (client_loop cs opts)
  unfolding client_loop ◌>>=◌ has_option
  client_loop-Debug [] opts = inr (opts, refl, sym (or_false opts.fuse_debug))
  client_loop-Debug (c ∷ cs) opts = elim (client_option-Debug c opts) [
    | inl (code, e) ↦ inl (code, rw e refl)
    | inr (opts1, e, d) ↦ elim (client_loop-Debug cs opts1) [
      | inl (code, e') ↦ inl (code, rw e e')
      | inr (opts2, e', d') ↦ inr (
        opts2,
        rw e e',
        d'
            ∙ ap (λ (x : Bool). x || has_option b'd' cs) d
            ∙ or_assoc opts.fuse_debug (c.opt == b'd') (has_option b'd' cs),
      )
    ]
  ]

module _ {P : Platform} (F : Mount P) where
  -- The process has ended, and the network is as it was.
  abbrev pub LeavesQuietly : Client P ℕ → Host P → Type 0
  LeavesQuietly m w = (c : ℕ) × (w' : Host P) × (m w ≡ (exited c, w')) × (w'.net ≡ w.net)

  -- `fuse_main` is called, with the network as it was, and the directory has been opened.
  abbrev pub Mounts : List Bytes → Bytes → Bytes → Client P ℕ → Host P → Type 0
  Mounts arguments server_url dir_path m w =
      (w' : Host P) × (before : P.os.State) × (mount_dir : ℕ) × (m w
        ≡ F.fuse_main arguments server_url w')
      × (w'.net ≡ w.net)
      × ((P.os.opendir dir_path before).0 ≡ ok mount_dir)

  mount_at-Mounts :
      (opts : ClientOptions) (prog_name server_url dir_path : Bytes) (w : Host P)
      → LeavesQuietly (mount_at F opts prog_name server_url dir_path) w
        ⊎ Mounts
            (fuse_arguments opts prog_name dir_path)
            server_url
            dir_path
            (mount_at F opts prog_name server_url dir_path)
            w
  unfolding mount_at ◌>>=◌ with_os checked
  mount_at-Mounts opts prog_name server_url dir_path w = opened (P.os.opendir dir_path w.os).0 refl
    where
      opened :
          (r : Sys ℕ)
          → (P.os.opendir dir_path w.os).0 ≡ r
          → LeavesQuietly (mount_at F opts prog_name server_url dir_path) w
            ⊎ Mounts
                (fuse_arguments opts prog_name dir_path)
                server_url
                dir_path
                (mount_at F opts prog_name server_url dir_path)
                w
      opened (fail e) q = inl (1, record w { os = (P.os.opendir dir_path w.os).1 }, rw q refl, refl)
      opened (ok d) q = inr (
        record w { os = F.closedir d (P.os.opendir dir_path w.os).1 },
        w.os,
        d,
        rw q refl,
        refl,
        q,
      )

  -- The arguments of `fuse_main`, by whether the option `-d` is there.
  abbrev pub expected : Getopt → Bytes → Bytes → List Bytes
  expected g prog_name dir_path =
      prog_name
      ∷ dir_path
      ∷ text_s
      ∷ text_o
      ∷ default_permissions
      ∷ (if has_option b'd' g.calls then text_d ∷ [] else [])

  expected_lem :
      (g : Getopt) (prog_name dir_path : Bytes) (opts : ClientOptions)
      → opts.fuse_debug ≡ has_option b'd' g.calls
      → fuse_arguments opts prog_name dir_path ≡ expected g prog_name dir_path
  unfolding fuse_arguments
  expected_lem g prog_name dir_path opts e =
      rw e (elim (Bool-cases (has_option b'd' g.calls)) [ inl d ↦ rw d refl | inr d ↦ rw d refl ])

  -- How the start of the client comes out.
  abbrev pub Starts : Getopt → Bytes → List Bytes → Host P → Type 0
  Starts g prog_name argv w =
      LeavesQuietly (client_main F g prog_name argv) w
      ⊎ (server_url : Bytes) × (dir_path : Bytes) × (argument (prog_name ∷ argv) g.optind
          ≡ some server_url)
        × (argument (prog_name ∷ argv) (g.optind + 1) ≡ some dir_path)
        × Mounts (expected g prog_name dir_path) server_url dir_path
            (client_main F g prog_name argv) w

  module _ (g : Getopt) (prog_name : Bytes) (argv : List Bytes) (w : Host P) where
    abbrev allocated : Host P
    allocated = record w { os = (P.os.malloc sizeof_client_state w.os).1 }

    with_arguments :
        (opts : ClientOptions) (u d : Option Bytes)
        → (P.os.malloc sizeof_client_state w.os).0 ≡ true
        → client_loop g.calls (record { verbose = false; fuse_debug = false }) allocated
          ≡ (returned opts, allocated)
        → opts.fuse_debug ≡ has_option b'd' g.calls
        → argument (prog_name ∷ argv) g.optind ≡ u
        → argument (prog_name ∷ argv) (g.optind + 1) ≡ d
        → Starts g prog_name argv w
    unfolding client_main ◌>>=◌ with_os given
    with_arguments opts none d m e debug p q = inl (1, allocated, rw (m, e, p) refl, refl)
    with_arguments opts (some url) none m e debug p q =
        inl (1, allocated, rw (m, e, p, q) refl, refl)
    with_arguments opts (some url) (some dir) m e debug p q =
        elim (mount_at-Mounts opts prog_name url dir allocated) [
          | inl (c, w', e', net) ↦ inl (c, w', rw (m, e, p, q) e', net)
          | inr (w', before, d, e', net, found) ↦
              let there : Mounts (expected g prog_name dir) url dir (client_main F g prog_name argv)
                  w =
                (
                  w',
                  before,
                  d,
                  rw (m, e, p, q)
                      (e'
                        ∙ ap (λ (x : List Bytes). F.fuse_main x url w')
                            (expected_lem g prog_name dir opts debug)),
                  net,
                  found,
                ) in
              inr (url, dir, p, q, there)
        ]

    with_memory :
        (b : Bool) → (P.os.malloc sizeof_client_state w.os).0 ≡ b → Starts g prog_name argv w
    unfolding client_main ◌>>=◌ with_os
    with_memory false m = inl (1, allocated, rw m refl, refl)
    with_memory true m =
        elim (client_loop-Debug allocated g.calls
          (record { verbose = false; fuse_debug = false })) [
            | inl (c, e) ↦ inl (c, allocated, rw (m, e) refl, refl)
            | inr (opts, e, debug) ↦ with_arguments opts _ _ m e debug refl refl
          ]

  -- The start of the client: the process ends with the network as it was; or the first two arguments
  -- are a URL and a directory that `opendir` has opened, and `fuse_main` is called with that directory
  -- to be mounted in a single thread, in debug mode if and only if the command line has the option
  -- `-d`, and with that URL, the network as it was.
  pub client_main-Starts :
      (g : Getopt) (prog_name : Bytes) (argv : List Bytes) (w : Host P) → Starts g prog_name argv w
  client_main-Starts g prog_name argv w = with_memory g prog_name argv w _ refl
