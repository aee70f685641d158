-- ===== src/Start/Port.antt =====
-- The options of the server of lab2, and its whole start.
use stanford_cs240_sp21_labs.Base.{List}
use stanford_cs240_sp21_labs.Base.{some, ℕ, ◌++◌, ◌∷◌, ◌≡◌, ◌⊎◌}
use stanford_cs240_sp21_labs.Base.Bytes.{Bytes}
use stanford_cs240_sp21_labs.Base.Exec.{Exec, exited, returned}
use stanford_cs240_sp21_labs.Base.Int.{pos, ℤ}
use stanford_cs240_sp21_labs.Platform.{Platform}
use stanford_cs240_sp21_labs.Start.Number.{parse_number}
use stanford_cs240_sp21_labs.Start.Options.{Call}
use stanford_cs240_sp21_labs.Start.Server.{ServerOptions}
use stanford_cs240_sp21_labs.World.{World}

-- An option `-p` with the number of a port.
abbrev pub FromOption : List Call → ℤ → Type 0
FromOption calls port =
    (before : List Call) × (c : Call) × (after : List Call) × (calls ≡ before ++ c ∷ after)
    × (c.opt ≡ b'p')
    × (parse_number c.erange c.optarg ≡ (pos 1, some port))

module _ {S : Type 0} (s : S) where
  -- What a part of the loop comes to: the end of the process, or options.
  abbrev Options : (ℤ → Type 0) → Exec S ServerOptions → Type 0
  Options IsPort m =
      ((c : ℕ) × (m s ≡ (exited c, s)))
      ⊎ (opts : ServerOptions) × (m s ≡ (returned opts, s)) × IsPort opts.port
