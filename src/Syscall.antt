-- ===== src/Syscall.antt =====
-- The dispatch of system calls, `syscall_handler` of src/userprog/syscall.c: which handler runs, with
-- which arguments, and how the process ends if an argument does not pass its checks. Addresses are
-- `uint32_t`, and the sum of one and a size wraps.
pub mod Checks
mod Tests
use qba.Prelude.{
  ℕ, zero, suc, ◌+◌, ◌*◌, ◌%◌, Bool, true, false, not, ◌&&◌, Option, none, some, List, [], ◌∷◌,
  get_elem?, ltb, leb, ◌==◌, if◌then◌else◌, u32, minus_one,
}

-- The last address that may be read, 0xbffffffe.
abbrev pub boundary : ℕ
boundary = 3221225470

unfoldable pub check_boundary : ℕ → Bool
check_boundary buffer = ltb buffer boundary

unfoldable pub check_buffer : ℕ → ℕ → Bool
check_buffer buffer size = leb (u32 (buffer + size)) boundary

unfoldable pub check_not_null : ℕ → Bool
check_not_null pointer = not (pointer == 0)

-- The handlers with their arguments.
pub data Call : Type 0 where
  exec : (cmd_line : ℕ) → Call
  wait : (pid : ℕ) → Call
  create : (name size : ℕ) → Call
  remove : (name : ℕ) → Call
  open_file : (name : ℕ) → Call
  filesize : (fd : ℕ) → Call
  read : (fd buffer size : ℕ) → Call
  write : (fd buffer size : ℕ) → Call
  seek : (fd position : ℕ) → Call
  tell : (fd : ℕ) → Call
  close : (fd : ℕ) → Call
  practice : (i : ℕ) → Call
  compute_e : (n : ℕ) → Call
  pt_create : (sfun tfun arg : ℕ) → Call
  pt_exit : Call
  pt_join : (tid : ℕ) → Call
  lock_init : (lock : ℕ) → Call
  lock_acquire : (lock : ℕ) → Call
  lock_release : (lock : ℕ) → Call
  sema_init : (sema val : ℕ) → Call
  sema_down : (sema : ℕ) → Call
  sema_up : (sema : ℕ) → Call
  get_tid : Call

-- What `syscall_handler` does: it turns the machine off, ends the process with a status, runs a
-- handler, or answers at once.
pub data Action : Type 0 where
  powers_off : Action
  exits : (exit_code : ℕ) → Action
  runs : Call → Action
  answers : (eax : ℕ) → Action

-- The state that the checks read: the words at the stack pointer (`arg n` is `args[n]`), its address,
-- `strlen` of user strings, and `files_next_desc`.
pub record User : Type 0 where
  pub arg : ℕ → ℕ
  pub esp : ℕ
  pub string_length : ℕ → ℕ
  pub files_next_desc : ℕ

-- `check_boundary (args + n)`
abbrev pub reaches : User → ℕ → Bool
reaches u n = check_boundary (u32 (u.esp + 4 * n))

-- A checked call: the process ends with -1 if the check fails.
abbrev pub guarded : Bool → Action → Action
guarded beneath action = if beneath then action else exits minus_one

-- The checks of a name, and of a buffer.
abbrev pub names : User → Bool
names u = check_not_null (u.arg 1) && check_buffer (u.arg 1) (u.string_length (u.arg 1))

abbrev pub buffers : User → Bool
buffers u = check_not_null (u.arg 2) && check_buffer (u.arg 2) (u.arg 3)

abbrev pub with_fd : User → Call → Action
with_fd u call = if leb (u.arg 1) u.files_next_desc then runs call else answers minus_one

abbrev pub with_pointer : User → Call → Action
with_pointer u call = if check_not_null (u.arg 1) then runs call else answers 0

-- The system call numbers of src/lib/syscall-nr.h that have a case, in their order from 0 on.
pub data SyscallNr : Type 0 where
  sys_halt : SyscallNr
  sys_exit : SyscallNr
  sys_exec : SyscallNr
  sys_wait : SyscallNr
  sys_create : SyscallNr
  sys_remove : SyscallNr
  sys_open : SyscallNr
  sys_filesize : SyscallNr
  sys_read : SyscallNr
  sys_write : SyscallNr
  sys_seek : SyscallNr
  sys_tell : SyscallNr
  sys_close : SyscallNr
  sys_practice : SyscallNr
  sys_compute_e : SyscallNr
  sys_pt_create : SyscallNr
  sys_pt_exit : SyscallNr
  sys_pt_join : SyscallNr
  sys_lock_init : SyscallNr
  sys_lock_acquire : SyscallNr
  sys_lock_release : SyscallNr
  sys_sema_init : SyscallNr
  sys_sema_down : SyscallNr
  sys_sema_up : SyscallNr
  sys_get_tid : SyscallNr

abbrev pub syscall_nrs : List SyscallNr
syscall_nrs =
    sys_halt ∷ sys_exit ∷ sys_exec ∷ sys_wait ∷ sys_create ∷ sys_remove ∷ sys_open ∷ sys_filesize
    ∷ sys_read ∷ sys_write ∷ sys_seek ∷ sys_tell ∷ sys_close ∷ sys_practice ∷ sys_compute_e
    ∷ sys_pt_create ∷ sys_pt_exit ∷ sys_pt_join ∷ sys_lock_init ∷ sys_lock_acquire
    ∷ sys_lock_release ∷ sys_sema_init ∷ sys_sema_down ∷ sys_sema_up ∷ sys_get_tid ∷ []

-- The `switch` by the number of the system call.
abbrev pub dispatch : Option SyscallNr → User → Action
dispatch (some sys_halt) u = powers_off
dispatch (some sys_exit) u = guarded (reaches u 1) (exits (u.arg 1))
dispatch (some sys_exec) u = guarded (reaches u 1 && names u) (runs (exec (u.arg 1)))
dispatch (some sys_wait) u = guarded (reaches u 1) (runs (wait (u.arg 1)))
dispatch (some sys_create) u = guarded (reaches u 2 && names u) (runs (create (u.arg 1) (u.arg 2)))
dispatch (some sys_remove) u = guarded (reaches u 1 && names u) (runs (remove (u.arg 1)))
dispatch (some sys_open) u = guarded (reaches u 1 && names u) (runs (open_file (u.arg 1)))
dispatch (some sys_filesize) u = guarded (reaches u 1) (with_fd u (filesize (u.arg 1)))
dispatch (some sys_read) u =
    guarded (reaches u 3 && buffers u) (with_fd u (read (u.arg 1) (u.arg 2) (u.arg 3)))
dispatch (some sys_write) u =
    guarded (reaches u 3 && buffers u) (with_fd u (write (u.arg 1) (u.arg 2) (u.arg 3)))
dispatch (some sys_seek) u = guarded (reaches u 2) (with_fd u (seek (u.arg 1) (u.arg 2)))
dispatch (some sys_tell) u = guarded (reaches u 1) (with_fd u (tell (u.arg 1)))
dispatch (some sys_close) u = guarded (reaches u 1) (with_fd u (close (u.arg 1)))
dispatch (some sys_practice) u = guarded (reaches u 1) (runs (practice (u.arg 1)))
dispatch (some sys_compute_e) u = guarded (reaches u 1) (runs (compute_e (u.arg 1)))
dispatch (some sys_pt_create) u =
    guarded (reaches u 2 && reaches u 3) (runs (pt_create (u.arg 1) (u.arg 2) (u.arg 3)))
dispatch (some sys_pt_exit) u = runs pt_exit
dispatch (some sys_pt_join) u = runs (pt_join (u.arg 1))
dispatch (some sys_lock_init) u = guarded (reaches u 1) (with_pointer u (lock_init (u.arg 1)))
dispatch (some sys_lock_acquire) u = guarded (reaches u 1) (with_pointer u (lock_acquire (u.arg 1)))
dispatch (some sys_lock_release) u = guarded (reaches u 1) (with_pointer u (lock_release (u.arg 1)))
dispatch (some sys_sema_init) u =
    guarded (reaches u 1) (with_pointer u (sema_init (u.arg 1) (u.arg 2)))
dispatch (some sys_sema_down) u = guarded (reaches u 1) (with_pointer u (sema_down (u.arg 1)))
dispatch (some sys_sema_up) u = guarded (reaches u 1) (with_pointer u (sema_up (u.arg 1)))
dispatch (some sys_get_tid) u = runs get_tid
dispatch none u = exits minus_one

unfoldable pub syscall_handler : User → Action
unfolding check_boundary check_buffer check_not_null
syscall_handler u = dispatch (get_elem? syscall_nrs (u.arg 0)) u

-- `handler_practice`, and `handler_pthread_create` around `pthread_execute`, whose answer is `tid`
-- (`none` is `TID_ERROR`): its answer and the counters `in_kernel_threads` and `active_threads`.
unfoldable pub handler_practice : ℕ → ℕ
handler_practice i = u32 (i + 1)

unfoldable pub handler_pthread_create : Option ℕ → ℕ → ℕ → ℕ × ℕ × ℕ
handler_pthread_create none kernel active =
    (minus_one, u32 (u32 (kernel + 1) + minus_one), u32 (u32 (active + 1) + minus_one))
handler_pthread_create (some tid) kernel active = (tid, u32 (kernel + 1), u32 (active + 1))
