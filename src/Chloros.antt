-- ===== src/Chloros.antt =====
-- lab1: the user-level threads of chloros, lab1/src/chloros.cpp and lab1/src/context_switch.S.
pub mod Thread
pub mod Scheduler
pub mod System
pub mod Tally
pub mod Effect
pub mod Advance
pub mod Invariant
pub mod Safety
pub mod Turns
pub mod Collect
pub mod Machine
pub mod Switch
pub mod Solo
