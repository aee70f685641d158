-- ===== src/Tests.antt =====
-- Runs of the model on a small concrete machine, and the theorems at concrete inputs.
pub mod Machine
mod Server
mod Client
mod Replies
mod Runs
mod Chloros
mod Turns
mod Solo
mod Start
mod Descriptors
