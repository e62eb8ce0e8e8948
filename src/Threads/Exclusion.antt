-- ===== src/Threads/Exclusion.antt =====
-- Mutual exclusion of locks (src/threads/synch.c), over all orders in which threads run.
pub mod Same
pub mod Inv
pub mod Moves
pub mod Release
pub mod Calls
pub mod Run
pub mod Restore
