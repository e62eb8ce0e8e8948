-- ===== src/Threads.antt =====
-- src/threads/thread.c and src/threads/synch.c: threads, the scheduler, semaphores, locks with
-- priority donation and condition variables, over one state of the kernel.
pub mod Types
pub mod Order
pub mod Sched
pub mod Donate
pub mod Sync
pub mod Exclusion
pub mod Urgent
mod Tests
