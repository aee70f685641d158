-- ===== src/Start.antt =====
-- The start of the two programs of lab2.
pub mod Number
pub mod Options
pub mod Server
pub mod Client
pub mod Jail
pub mod Port
pub mod Mounts
