-- ===== src/Server/Leads/Rename.antt =====
-- What RENAME does to handles (lab2/src/server/handlers.c and fhandledb.c).
use stanford_cs240_sp21_labs.Base.{◌≡◌}
use stanford_cs240_sp21_labs.Base.Bytes.{Bytes}
use stanford_cs240_sp21_labs.Base.Bytes.{terminated}
use stanford_cs240_sp21_labs.Base.Exec.{fail, ok}
use stanford_cs240_sp21_labs.Base.Exec.Post.{Post}
use stanford_cs240_sp21_labs.Fhandledb.{handle_key}
use stanford_cs240_sp21_labs.Fhandledb.Entries.{Entries}
use stanford_cs240_sp21_labs.Platform.{Platform, db_notfound}
use stanford_cs240_sp21_labs.Proto.{Fhandle, Rep, error_rep, rename_rep}
use stanford_cs240_sp21_labs.World.{World}

-- The reply to a RENAME of a file with the handle `fh`: an error, or a handle that leads to the new
-- path, and then neither the old path nor the old handle has an entry.
abbrev pub IsMoved : Bytes → Bytes → Fhandle → Entries → Rep → Type 0
IsMoved old new fh g (error_rep e) = Unit
IsMoved old new fh g (rename_rep h) =
    (g (handle_key h) ≡ ok (terminated new))
    × ((g (terminated old) ≡ fail db_notfound) × (g (handle_key fh) ≡ fail db_notfound))
IsMoved old new fh g _ = ⊥

-- The reply to a RENAME: an error, or a handle that has no entry.
abbrev pub IsLost : Entries → Rep → Type 0
IsLost g (error_rep e) = Unit
IsLost g (rename_rep h) = g (handle_key h) ≡ fail db_notfound
IsLost g _ = ⊥
