-- ===== src/Threads/Types.antt =====
-- The state of the thread system: src/threads/thread.h, src/threads/synch.h and the static
-- variables of src/threads/thread.c and src/devices/timer.c. Pointers are addresses: a
-- `struct thread *` finds its thread in `thread`, a `struct lock *` in `lock`, a
-- `struct semaphore *` in `sema`, and a `struct list *` of threads in `lists`.
use qba.Prelude.{ℕ, Bool, true, false, Option, none, some, List, [], ◌∷◌, update}

pub data Status : Type 0 where
  running : Status
  ready : Status
  blocked : Status
  dying : Status
  zombie : Status

-- Where a thread goes on when it is scheduled again: the part of its kernel stack that matters.
pub data Frame : Type 0 where
  done : Frame
  sema_downing : (sema : ℕ) → Frame
  lock_acquiring : (lock : ℕ) → Frame
  lock_releasing : (lock : ℕ) → Frame
  cond_released : (cond lock : ℕ) → Frame
  cond_woken : (lock : ℕ) → Frame

-- `struct thread`, without its name, stack, magic number and process.
pub record Thread : Type 0 where
  pub tid : ℕ
  pub status : Status
  pub wake_up : ℕ
  pub donated_for : Option ℕ
  pub lock_queue : List ℕ
  pub b_pri : ℕ
  pub e_pri : ℕ
  pub queue : Option ℕ
  pub frame : Frame

-- `struct semaphore`: `waiters` is the address of the list.
pub record Semaphore : Type 0 where
  pub value : ℕ
  pub waiters : ℕ

-- `struct lock`: `state` is the bit pattern of an `int8_t`, and `semaphore` an address.
pub record Lock : Type 0 where
  pub holder : Option ℕ
  pub state : ℕ
  pub semaphore : ℕ
  pub pri : ℕ

pub data Policy : Type 0 where
  sched_fifo : Policy
  sched_prio : Policy
  sched_fair : Policy
  sched_mlfqs : Policy

-- The addresses of the locks are below `lock_cnt`, which is not in the source: it gives a loop over
-- locks its fuel.
pub record Kernel : Type 0 where
  pub thread : ℕ → Thread
  pub lock : ℕ → Lock
  pub lock_cnt : ℕ
  pub sema : ℕ → Semaphore
  pub lists : ℕ → List ℕ
  pub all_list : List ℕ
  pub current : ℕ
  pub idle_thread : ℕ
  pub initial_thread : ℕ
  pub policy : Policy
  pub in_intr : Bool
  pub yield_on_return : Bool
  pub thread_ticks : ℕ
  pub ticks : ℕ
  pub freed : List ℕ

-- The addresses of the two static lists of threads.
abbrev pub ready_list : ℕ
ready_list = 0

abbrev pub timer_sleep_list : ℕ
timer_sleep_list = 1

-- Writes through pointers.
abbrev pub set_thread : Kernel → ℕ → Thread → Kernel
set_thread k t v = record k { thread = update k.thread t v }

abbrev pub set_lock : Kernel → ℕ → Lock → Kernel
set_lock k l v = record k { lock = update k.lock l v }

abbrev pub set_sema : Kernel → ℕ → Semaphore → Kernel
set_sema k s v = record k { sema = update k.sema s v }

abbrev pub set_list : Kernel → ℕ → List ℕ → Kernel
set_list k q v = record k { lists = update k.lists q v }

abbrev pub set_status : Kernel → ℕ → Status → Kernel
set_status k t s = set_thread k t (record (k.thread t) { status = s })

abbrev pub set_queue : Kernel → ℕ → Option ℕ → Kernel
set_queue k t q = set_thread k t (record (k.thread t) { queue = q })

abbrev pub set_frame : Kernel → ℕ → Frame → Kernel
set_frame k t f = set_thread k t (record (k.thread t) { frame = f })

abbrev pub set_e_pri : Kernel → ℕ → ℕ → Kernel
set_e_pri k t p = set_thread k t (record (k.thread t) { e_pri = p })

abbrev pub set_lock_queue : Kernel → ℕ → List ℕ → Kernel
set_lock_queue k t q = set_thread k t (record (k.thread t) { lock_queue = q })

abbrev pub is_blocked : Status → Bool
is_blocked blocked = true
is_blocked _ = false

abbrev pub is_running : Status → Bool
is_running running = true
is_running _ = false

abbrev pub is_dying : Status → Bool
is_dying dying = true
is_dying _ = false

abbrev pub is_none {ℓ} : {A : Type ℓ} → Option A → Bool
is_none none = true
is_none (some a) = false

abbrev pub is_empty {ℓ} : {A : Type ℓ} → List A → Bool
is_empty [] = true
is_empty (x ∷ xs) = false
