-- ===== src/KernelList.antt =====
-- The sort of src/lib/kernel/list.c; its ordered insertion and its removal are in Threads.Order.
pub mod Sort
