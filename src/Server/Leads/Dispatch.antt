-- ===== src/Server/Leads/Dispatch.antt =====
-- The handles that MOUNT, LOOKUP, CREATE and MKDIR give (lab2/src/server/handlers.c).
use stanford_cs240_sp21_labs.Base.Bytes.{Bytes}
use stanford_cs240_sp21_labs.Base.Exec.Post.{Post}
use stanford_cs240_sp21_labs.Fhandledb.Entries.{Entries}
use stanford_cs240_sp21_labs.Platform.{Platform}
use stanford_cs240_sp21_labs.Server.Leads.{Leads}
use stanford_cs240_sp21_labs.World.{World}
