-- ===== src/Server/Halts/Dispatch.antt =====
-- Termination of the handlers that make new handles, and of the switch of lab2/src/server/main.c.
use stanford_cs240_sp21_labs.Base.Bytes.{Bytes}
use stanford_cs240_sp21_labs.Platform.{Platform}
use stanford_cs240_sp21_labs.Server.Halts.{Halts}
use stanford_cs240_sp21_labs.World.{Server, World}
