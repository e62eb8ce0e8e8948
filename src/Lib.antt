-- ===== src/Lib.antt =====
-- Pintos: a small operating system kernel. This library models the parts of the kernel that carry
-- its logic, and proves what they promise each other.
--
-- Data of the kernel library: Bitmap is src/lib/kernel/bitmap.c (words of 32 bits, sizes that
-- wrap at 2 ^ 32), KernelList is list_sort of src/lib/kernel/list.c over sequences, and CString
-- is src/lib/string.c over a memory of bytes. Threads is src/threads/thread.c and
-- src/threads/synch.c over one state of the kernel: Threads.Types has the structs, with pointers
-- as addresses; Threads.Order has list_insert_ordered and list_remove; Threads.Sched has the
-- ready list, the choice of the next thread and the switch; Threads.Donate has
-- donate_pri_acquire; Threads.Sync has semaphores, locks and condition variables, where a
-- function that sleeps ends at the sleep and keeps the rest of its work in the frame of the
-- thread; Threads.Exclusion has the runs of all threads. Timer is src/devices/timer.c over the
-- same state, RwLock is the readers-writers lock of src/threads/synch.c by its counters, and Intq
-- is src/devices/intq.c for calls from interrupt handlers. Palloc is src/threads/palloc.c and
-- FreeMap is src/filesys/free-map.c; both keep what is in use in a bitmap. Inode is
-- src/filesys/inode.c over a disk of sectors and the free map (Inode.Table has the open inodes),
-- and File is src/filesys/file.c over an inode. Directory is src/filesys/directory.c over the
-- entries of a directory, with filesys_create of src/filesys/filesys.c.
--
-- User processes (src/userprog): Descriptors has the table of open files of a process and the
-- handlers of syscall.c on it, over File and the table of open inodes; UserLock has the handlers
-- on user locks and semaphores over Threads.Sync; Syscall has the dispatch of syscall.c and its
-- checks of arguments. Child is the element that a parent and its child share: process_execute,
-- process_wait and the end of start_process (process_create.c), the functions of process_exit.c
-- that free the element, and handler_exec. Exit has the exits of the threads of a process
-- (process_exit.c) and pthread_join (userthread_join.c); what a thread does with interrupts off
-- is one function there, so that the orders of such steps can be told apart. Elf is the loader of
-- process_create.c, from the program headers to the pages, and Args the stack of arguments that
-- start_process builds. UserThread is the start of a user thread (userthread_create.c):
-- pthread_execute and its part of the bitmap of stacks, and setup_thread. Pagedir is pagedir.c
-- with its two levels of tables, over pte.h and vaddr.h; Elf has a page directory as a map.
--
-- Definitions have the names of the functions in the source; a loop that is a function of its own
-- is named after its function, and the loops of the donation have one function per part of the
-- loop.
--
-- Outcomes: an assertion that fails or a call of PANIC is the outcome panic, and what the code
-- leaves undefined, such as the removal of an element from a list that it is not in, is
-- undefined.
--
-- Fuel: donate_pri_acquire has one round for each address of a lock and one more, which is enough
-- since each round raises a lock at most once; inode_read_at and inode_write_at have one round
-- for each byte and one more, which is enough since each round moves a byte at least; the loops
-- of strings have as many rounds as bytes may be read; load_segment has one round for each byte
-- of the segment and one more, which is enough since each round loads a page; pass_arguments has
-- the fuel that it is given, for the loops of strtok_r and for the loop over tokens, and the
-- length of the command line and 4 is enough.
--
-- Sizes and positions that user code hands over are off_t in file.c: from 2 ^ 31 on they are
-- negative there, and the handlers of Descriptors treat them so.
--
-- Not modelled: the hardware, interrupts other than as steps, the dirty and accessed bits of
-- pages, the stack frames of threads, the initialization of a PCB, the entries of a directory as
-- bytes, the heap, hash tables, and the input and output of the free map file. What malloc,
-- calloc, palloc_get_page, pagedir_set_page, block_size and bitmap_write answer is an argument of
-- the functions that call them.
pub mod Args
pub mod Prelude
pub mod Bitmap
pub mod KernelList
pub mod CString
pub mod Child
pub mod Descriptors
pub mod FreeMap
pub mod Inode
pub mod Directory
pub mod Elf
pub mod Exit
pub mod File
pub mod Palloc
pub mod Pagedir
pub mod Threads
pub mod RwLock
pub mod Intq
pub mod Syscall
pub mod Timer
pub mod UserLock
pub mod UserThread
