-- ===== src/Syscall/Checks.antt =====
-- The checks of arguments that come before a handler runs.
use qba.Prelude.{
  ℕ, ◌+◌, ◌≤◌, ◌<◌, ◌≡◌, ◌≢◌, refl, ap, ◌∙◌, Bool, true, false, not, ◌&&◌, Option, none, some,
  get_elem?, leb, ◌==◌, if◌then◌else◌, u32, minus_one, arith, ◌⊎◌, inl, inr,
}
use qba.Syscall.{
  boundary, check_buffer, check_not_null, Call, exec, wait, create, remove, open_file, filesize,
  read, write, seek, tell, close, practice, compute_e, pt_create, pt_exit, pt_join, lock_init,
  lock_acquire, lock_release, sema_init, sema_down, sema_up, get_tid, Action, powers_off, exits,
  runs, answers, User, reaches, guarded, names, buffers, with_fd, with_pointer, SyscallNr,
  syscall_nrs, dispatch, syscall_handler, sys_halt, sys_exit, sys_exec, sys_wait, sys_create,
  sys_remove, sys_open, sys_filesize, sys_read, sys_write, sys_seek, sys_tell, sys_close,
  sys_practice, sys_compute_e, sys_pt_create, sys_pt_exit, sys_pt_join, sys_lock_init,
  sys_lock_acquire, sys_lock_release, sys_sema_init, sys_sema_down, sys_sema_up, sys_get_tid,
}

abbrev IsName : User → ℕ → Type 0
IsName u name = (name ≢ 0) × (u32 (name + u.string_length name) ≤ boundary)

abbrev IsBuffer : ℕ → ℕ → Type 0
IsBuffer buffer size = (buffer ≢ 0) × (u32 (buffer + size) ≤ boundary)

-- What a handler may rely on.
abbrev pub Checked : User → Call → Type 0
Checked u (exec name) = IsName u name
Checked u (create name size) = IsName u name
Checked u (remove name) = IsName u name
Checked u (open_file name) = IsName u name
Checked u (filesize fd) = fd ≤ u.files_next_desc
Checked u (read fd buffer size) = (fd ≤ u.files_next_desc) × IsBuffer buffer size
Checked u (write fd buffer size) = (fd ≤ u.files_next_desc) × IsBuffer buffer size
Checked u (seek fd position) = fd ≤ u.files_next_desc
Checked u (tell fd) = fd ≤ u.files_next_desc
Checked u (close fd) = fd ≤ u.files_next_desc
Checked u (lock_init lock) = lock ≢ 0
Checked u (lock_acquire lock) = lock ≢ 0
Checked u (lock_release lock) = lock ≢ 0
Checked u (sema_init sema val) = sema ≢ 0
Checked u (sema_down sema) = sema ≢ 0
Checked u (sema_up sema) = sema ≢ 0
Checked u (wait pid) = Unit {0}
Checked u (practice i) = Unit {0}
Checked u (compute_e n) = Unit {0}
Checked u (pt_create sfun tfun arg) = Unit {0}
Checked u pt_exit = Unit {0}
Checked u (pt_join tid) = Unit {0}
Checked u get_tid = Unit {0}

-- What an action may do.
abbrev pub Allowed : User → Action → Type 0
Allowed u powers_off = Unit {0}
Allowed u (exits exit_code) = Unit {0}
Allowed u (runs call) = Checked u call
Allowed u (answers eax) = Unit {0}

guarded-Allowed :
    (u : User) (b : Bool) (a : Action) → (b ≡ true → Allowed u a) → Allowed u (guarded b a)
guarded-Allowed u true a h = h refl
guarded-Allowed u false a h = tt

with_fd-Allowed :
    (u : User) (c : Call) → (u.arg 1 ≤ u.files_next_desc → Checked u c) → Allowed u (with_fd u c)
with_fd-Allowed u c h = by_test (leb (u.arg 1) u.files_next_desc) refl
  where
    by_test :
        (b : Bool)
        → leb (u.arg 1) u.files_next_desc ≡ b
        → Allowed u (if b then runs c else answers minus_one)
    by_test true e = h (ground (arith, e))
    by_test false e = tt

with_pointer-Allowed :
    (u : User) (c : Call) → (u.arg 1 ≢ 0 → Checked u c) → Allowed u (with_pointer u c)
unfolding check_not_null
with_pointer-Allowed u c h = by_test (check_not_null (u.arg 1)) refl
  where
    by_test : (b : Bool) → not (u.arg 1 == 0) ≡ b → Allowed u (if b then runs c else answers 0)
    by_test true e = h (λ z. ground (arith, e, z))
    by_test false e = tt

names-IsName : (u : User) (b : Bool) → (b && names u) ≡ true → IsName u (u.arg 1)
unfolding check_buffer check_not_null
names-IsName u b e = (λ z. ground (arith, e, z), ground (arith, e))

buffers-IsBuffer : (u : User) (b : Bool) → (b && buffers u) ≡ true → IsBuffer (u.arg 2) (u.arg 3)
unfolding check_buffer check_not_null
buffers-IsBuffer u b e = (λ z. ground (arith, e, z), ground (arith, e))

dispatch-Allowed : (n : Option SyscallNr) (u : User) → Allowed u (dispatch n u)
dispatch-Allowed none u = tt
dispatch-Allowed (some sys_halt) u = tt
dispatch-Allowed (some sys_exit) u = guarded-Allowed u (reaches u 1) (exits (u.arg 1)) (λ e. tt)
dispatch-Allowed (some sys_exec) u =
    guarded-Allowed u (reaches u 1 && names u) _ (names-IsName u (reaches u 1))
dispatch-Allowed (some sys_wait) u = guarded-Allowed u (reaches u 1) _ (λ e. tt)
dispatch-Allowed (some sys_create) u =
    guarded-Allowed u (reaches u 2 && names u) _ (names-IsName u (reaches u 2))
dispatch-Allowed (some sys_remove) u =
    guarded-Allowed u (reaches u 1 && names u) _ (names-IsName u (reaches u 1))
dispatch-Allowed (some sys_open) u =
    guarded-Allowed u (reaches u 1 && names u) _ (names-IsName u (reaches u 1))
dispatch-Allowed (some sys_filesize) u =
    guarded-Allowed u (reaches u 1) _ (λ e. with_fd-Allowed u (filesize (u.arg 1)) (λ h. h))
dispatch-Allowed (some sys_read) u = guarded-Allowed u (reaches u 3 && buffers u) _ (λ e.
    with_fd-Allowed u (read (u.arg 1) (u.arg 2) (u.arg 3))
      (λ h. (h, buffers-IsBuffer u (reaches u 3) e)))
dispatch-Allowed (some sys_write) u = guarded-Allowed u (reaches u 3 && buffers u) _ (λ e.
    with_fd-Allowed u (write (u.arg 1) (u.arg 2) (u.arg 3))
      (λ h. (h, buffers-IsBuffer u (reaches u 3) e)))
dispatch-Allowed (some sys_seek) u =
    guarded-Allowed u (reaches u 2) _ (λ e. with_fd-Allowed u (seek (u.arg 1) (u.arg 2)) (λ h. h))
dispatch-Allowed (some sys_tell) u =
    guarded-Allowed u (reaches u 1) _ (λ e. with_fd-Allowed u (tell (u.arg 1)) (λ h. h))
dispatch-Allowed (some sys_close) u =
    guarded-Allowed u (reaches u 1) _ (λ e. with_fd-Allowed u (close (u.arg 1)) (λ h. h))
dispatch-Allowed (some sys_practice) u = guarded-Allowed u (reaches u 1) _ (λ e. tt)
dispatch-Allowed (some sys_compute_e) u = guarded-Allowed u (reaches u 1) _ (λ e. tt)
dispatch-Allowed (some sys_pt_create) u = guarded-Allowed u (reaches u 2 && reaches u 3) _ (λ e. tt)
dispatch-Allowed (some sys_pt_exit) u = tt
dispatch-Allowed (some sys_pt_join) u = tt
dispatch-Allowed (some sys_lock_init) u =
    guarded-Allowed u (reaches u 1) _ (λ e. with_pointer-Allowed u (lock_init (u.arg 1)) (λ h. h))
dispatch-Allowed (some sys_lock_acquire) u =
    guarded-Allowed u (reaches u 1) _
      (λ e. with_pointer-Allowed u (lock_acquire (u.arg 1)) (λ h. h))
dispatch-Allowed (some sys_lock_release) u =
    guarded-Allowed u (reaches u 1) _
      (λ e. with_pointer-Allowed u (lock_release (u.arg 1)) (λ h. h))
dispatch-Allowed (some sys_sema_init) u =
    guarded-Allowed u (reaches u 1) _
      (λ e. with_pointer-Allowed u (sema_init (u.arg 1) (u.arg 2)) (λ h. h))
dispatch-Allowed (some sys_sema_down) u =
    guarded-Allowed u (reaches u 1) _ (λ e. with_pointer-Allowed u (sema_down (u.arg 1)) (λ h. h))
dispatch-Allowed (some sys_sema_up) u =
    guarded-Allowed u (reaches u 1) _ (λ e. with_pointer-Allowed u (sema_up (u.arg 1)) (λ h. h))
dispatch-Allowed (some sys_get_tid) u = tt

-- Whatever a process passes to a system call, a handler runs only with a name or a buffer that is not
-- null and whose end, as a `uint32_t`, is not past 0xbffffffe, with a descriptor not above the next
-- one, and with a lock or semaphore that is not null.
pub syscall_handler_lem : (u : User) → Allowed u (syscall_handler u)
unfolding syscall_handler
syscall_handler_lem u = dispatch-Allowed (get_elem? syscall_nrs (u.arg 0)) u

-- `read` or `write` by the number of the system call.
abbrev pub transfer : User → Call
transfer u =
    if u.arg 0 == 8 then read (u.arg 1) (u.arg 2) (u.arg 3) else write (u.arg 1) (u.arg 2) (u.arg 3)

-- A read or write whose buffer and size add up to 2 ^ 32 or a little more passes the checks whatever
-- the address of the buffer is, and the handler of the call runs with it, also with an address of the
-- kernel. The descriptor is one that `check_fd` lets through, and the buffer is not null.
pub syscall_handler_wraps :
    (u : User)
    → (u.arg 0 ≡ 8) ⊎ (u.arg 0 ≡ 9)
    → reaches u 3 ≡ true
    → u.arg 1 ≤ u.files_next_desc
    → 0 < u.arg 2
    → 4294967296 ≤ u.arg 2 + u.arg 3
    → u.arg 2 + u.arg 3 ≤ 4294967296 + boundary
    → syscall_handler u ≡ runs (transfer u)
unfolding syscall_handler check_buffer check_not_null
syscall_handler_wraps u (inl n) r fd pos lo hi =
    ap (λ x. dispatch (get_elem? syscall_nrs x) u) n ∙ rw (r, n) (ground (arith, fd, pos, lo, hi))
syscall_handler_wraps u (inr n) r fd pos lo hi =
    ap (λ x. dispatch (get_elem? syscall_nrs x) u) n ∙ rw (r, n) (ground (arith, fd, pos, lo, hi))
