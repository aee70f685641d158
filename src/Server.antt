-- ===== src/Server.antt =====
-- The server: lab2/src/server/handlers.c and the loop of lab2/src/server/main.c. The handlers stand
-- in the children that are named for what they serve, and what is proved of all of them in
-- `Answers`, `Halts`, `Handles`, `Says`, `Leads`, `Unknown`, `Descriptors` and
-- `Sigterm`.
pub mod Attr
pub mod Reply
pub mod Files
pub mod Readdir
pub mod Buffer
pub mod Data
pub mod Setattr
pub mod Names
pub mod Loop
pub mod Answers
pub mod Handles
pub mod Says
pub mod Unknown
pub mod Descriptors
pub mod Sigterm
pub mod Leads
pub mod Halts
