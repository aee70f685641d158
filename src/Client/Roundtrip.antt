-- ===== src/Client/Roundtrip.antt =====
-- Attributes that go from the server's `stat_to_fattr` to the client's `fattr_to_stat`
-- (lab2/src/server/handlers.c and lab2/src/client/fuseops.c).
use stanford_cs240_sp21_labs.Base.{arith, refl, ◌%◌, ◌<◌, ◌^◌, ◌≡◌}
use stanford_cs240_sp21_labs.Base.Bytes.{u64_mod}
use stanford_cs240_sp21_labs.Client.Attr.{fattr_to_stat}
use stanford_cs240_sp21_labs.Platform.{Stat}
use stanford_cs240_sp21_labs.Proto.{Fattr}
use stanford_cs240_sp21_labs.Server.Attr.{stat_to_fattr}

-- The ranges of the fields of `struct stat` on the machines that the program runs on.
pub record IsStat (st : Stat) : Type 0 where
  pub mode : st.st_mode < 2 ^ 32
  pub nlink : st.st_nlink < u64_mod
  pub uid : st.st_uid < 2 ^ 32
  pub gid : st.st_gid < 2 ^ 32
  pub size : st.st_size < u64_mod
  pub ino : st.st_ino < u64_mod

-- If the fields are in the ranges of their types: a file's mode, links, owners, size, number and
-- times, in seconds, come to the client's `struct stat` as they are in the server's; the devices
-- stay as they were there.
pub fattr_to_stat-stat_to_fattr :
    (st old : Stat) (attr : Fattr)
    → IsStat st
    → fattr_to_stat (stat_to_fattr st attr) old
      ≡ record st { st_rdev = old.st_rdev; st_dev = old.st_dev }
unfolding fattr_to_stat stat_to_fattr
fattr_to_stat-stat_to_fattr st old attr h =
    let m : st.st_mode % u64_mod % 2 ^ 32 ≡ st.st_mode = omega (arith, h.mode) in
    let n : st.st_nlink % u64_mod ≡ st.st_nlink = omega (arith, h.nlink) in
    let u : st.st_uid % u64_mod % 2 ^ 32 ≡ st.st_uid = omega (arith, h.uid) in
    let g : st.st_gid % u64_mod % 2 ^ 32 ≡ st.st_gid = omega (arith, h.gid) in
    let s : st.st_size % u64_mod ≡ st.st_size = omega (arith, h.size) in
    let i : st.st_ino % u64_mod ≡ st.st_ino = omega (arith, h.ino) in rw (m, n, u, g, s, i) refl
