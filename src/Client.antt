-- ===== src/Client.antt =====
-- The client: lab2/src/client/request.c, lab2/src/client/fuseops.c, and the callbacks `snfs_init`
-- and `snfs_destroy` of lab2/src/client/main.c.
pub mod State
pub mod Request
pub mod Path
pub mod Attr
pub mod Files
pub mod Names
pub mod Tokens
pub mod Replies
pub mod Roundtrip
pub mod Walk
