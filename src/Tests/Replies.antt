-- ===== src/Tests/Replies.antt =====
-- The theorems on what a reply says, at concrete requests, on the machine of `Machine`.
use stanford_cs240_sp21_labs.Base.{[], inl, refl, true, ◌∷◌, ◌≡◌}
use stanford_cs240_sp21_labs.Base.Exec.{exited}
use stanford_cs240_sp21_labs.Base.Int.{pos}
use stanford_cs240_sp21_labs.Proto.{SetattrArgs, mount_args}
use stanford_cs240_sp21_labs.Server.Files.{zero_fattr}
use stanford_cs240_sp21_labs.Server.Loop.{serve_loop}
use stanford_cs240_sp21_labs.Server.Says.{Says}
use stanford_cs240_sp21_labs.Server.Says.Setattr.{IsSetattrAnswer, handle_setattr-Says}
use stanford_cs240_sp21_labs.Server.Setattr.{handle_setattr}
use stanford_cs240_sp21_labs.Server.Sigterm.{serve_loop-IsTold}
use stanford_cs240_sp21_labs.Tests.Machine.{booted, machine}
use stanford_cs240_sp21_labs.World.{World}

-- A SETATTR for a mode and an owner.
abbrev chmod_a : SetattrArgs
chmod_a = record {
  file = 7;
  which = 3;
  mode = 420;
  uid = 1;
  gid = 0;
  size = pos 0;
  atime = zero_fattr.atime;
  mtime = zero_fattr.mtime;
}

handle_setattr-Says_example : Says {P = machine} (IsSetattrAnswer 3) (handle_setattr 3 chmod_a)
handle_setattr-Says_example = handle_setattr-Says {P = machine} 3 chmod_a

-- A server that was told to end, with a request that waits.
abbrev told : World machine
told = record (booted (mount_args ∷ [])) { terminated = true }

serve_loop-IsTold_example :
    ((serve_loop {P = machine} zero_fattr 3 1 told).0 ≡ exited 0)
    × ((serve_loop {P = machine} zero_fattr 3 1 told).1.sent ≡ [])
serve_loop-IsTold_example = serve_loop-IsTold {P = machine} zero_fattr 3 0 told (inl refl)
