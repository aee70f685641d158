-- ===== src/Client/Attr.antt =====
-- `fattr_to_stat` of lab2/src/client/fuseops.c, as it is compiled on Linux. Sizes are below 2 ^ 63.
use stanford_cs240_sp21_labs.Platform.{Stat}
use stanford_cs240_sp21_labs.Proto.{Fattr}
use stanford_cs240_sp21_labs.Server.Setattr.{u32}

-- `st` is what the structure holds before the call.
unfoldable pub fattr_to_stat : Fattr → Stat → Stat
fattr_to_stat attr st = record st {
  st_mode = u32 attr.mode;
  st_nlink = attr.nlink;
  st_uid = u32 attr.uid;
  st_gid = u32 attr.gid;
  st_size = attr.size;
  st_ino = attr.fileid;
  st_atime = attr.atime.seconds;
  st_mtime = attr.mtime.seconds;
  st_ctime = attr.ctime.seconds;
}
