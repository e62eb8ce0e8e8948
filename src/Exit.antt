-- ===== src/Exit.antt =====
-- How the threads of a process leave it: src/userprog/process_exit.c, `pthread_join` of
-- userthread_join.c, and the two ends of `syscall_handler` (syscall.c). What a thread does with
-- interrupts off is one step here, a function of its own where a C function turns them on in between.
-- A step that gives up the processor ends there, with the status that the thread then has; the ready
-- list, and the user stack that `pthread_exit` unmaps, are left out.
pub mod Kernel
pub mod Hang
pub mod Normal
pub mod Join
mod Tests
use qba.Prelude.{
  ℕ, zero, suc, ◌+◌, ◌-◌, ◌%◌, Bool, true, false, not, ◌&&◌, ◌||◌, Option, none, some, List, [],
  ◌∷◌, ltb, ◌==◌, if◌then◌else◌, update,
}
pub use qba.Prelude.{minus_one}
use qba.Prelude.Outcome.{Outcome, ok, panic, undefined, ◌>>=◌, ◌>>◌, assert}
use qba.Bitmap.{Bitmap, bitmap_set}
use qba.Threads.Order.{remove}
use qba.Threads.Types.{Status, ready, blocked, dying, zombie, is_blocked, is_dying}

-- `enum exiting_status`
pub data Exiting : Type 0 where
  exiting_none : Exiting
  exiting_main : Exiting
  exiting_normal : Exiting
  exiting_exception : Exiting

-- The fields of `struct thread` that processes use.
pub record UserThread : Type 0 where
  pub tid : ℕ
  pub status : Status
  pub in_handler : Bool
  pub joined_by : Option ℕ
  pub stack_no : ℕ

-- The fields of `struct process` on its threads, and the threads that addresses point to.
-- `thread_exiting` and `joined_by` are `none` for the null pointer, and the counters are `uint32_t`.
pub record Proc : Type 0 where
  pub exiting : Exiting
  pub exit_code : ℕ
  pub thread_exiting : Option ℕ
  pub main_thread : ℕ
  pub in_kernel_threads : ℕ
  pub active_threads : ℕ
  pub threads : List ℕ
  pub stacks : Bitmap
  pub thread : ℕ → UserThread

-- `++` and `--` on a `uint32_t`.
abbrev pub inc : ℕ → ℕ
inc n = (n + 1) % 4294967296

abbrev pub dec : ℕ → ℕ
dec n = (n + 4294967295) % 4294967296

abbrev pub set_thread : Proc → ℕ → UserThread → Proc
set_thread p t v = record p { thread = update p.thread t v }

abbrev pub set_status : Proc → ℕ → Status → Proc
set_status p t s = set_thread p t (record (p.thread t) { status = s })

-- `thread_unblock` on the status.
unfoldable pub unblock : ℕ → Proc → Outcome Proc
unblock t p = assert (is_blocked (p.thread t).status) >> ok (set_status p t ready)

abbrev pub unblock_pointer : Option ℕ → Proc → Outcome Proc
unblock_pointer none p = undefined
unblock_pointer (some t) p = unblock t p

abbrev pub unblock_joiner : Option ℕ → Proc → Outcome Proc
unblock_joiner none p = ok p
unblock_joiner (some joiner) p = unblock joiner p

unfoldable pub wake_up_joiner : ℕ → Proc → Outcome Proc
unfolding unblock
wake_up_joiner t p = unblock_joiner (p.thread t).joined_by p

unfoldable pub set_exit_code : Proc → ℕ → Proc
set_exit_code p exit_code =
    if (p.exit_code == 0) || not (exit_code == minus_one)
    then record p { exit_code = exit_code }
    else p

-- `syscall_handler` on the way in.
unfoldable pub enter_kernel : ℕ → Proc → Proc
enter_kernel t p = record p {
  in_kernel_threads = inc p.in_kernel_threads;
  thread = update p.thread t (record (p.thread t) { in_handler = true });
}

-- How `exit_if_exiting` goes on once interrupts are on again: by `thread_exit`, where it first frees
-- the PCB or not, by `pthread_exit`, or back to user code.
pub data Leave : Type 0 where
  thread_exits : (free_pcb : Bool) → Leave
  pthread_exits : Leave
  goes_on : Leave

-- Its part with interrupts off.
abbrev pub leave_none : Bool → Leave
leave_none is_pthread_exit = if is_pthread_exit then pthread_exits else goes_on

abbrev pub leave_by : Exiting → Bool → Proc → Outcome (Leave × Proc)
leave_by exiting_none is_pthread_exit p = ok (leave_none is_pthread_exit, p)
leave_by exiting_main is_pthread_exit p =
    let last = is_pthread_exit && (p.active_threads == 2) in
    let wakes = (do q ← unblock p.main_thread p; ok (leave_none is_pthread_exit, q)) in
    if last then wakes else ok (leave_none is_pthread_exit, p)
leave_by exiting_normal is_pthread_exit p =
    let wakes = (do q ← unblock_pointer p.thread_exiting p; ok (pthread_exits, q)) in
    if p.in_kernel_threads == 1 then wakes else ok (pthread_exits, p)
leave_by exiting_exception is_pthread_exit p = ok (thread_exits (p.in_kernel_threads == 0), p)

unfoldable pub exit_if_exiting : ℕ → Bool → Proc → Outcome (Leave × Proc)
unfolding unblock
exit_if_exiting t is_pthread_exit p = leave_by p.exiting is_pthread_exit (record p {
  in_kernel_threads = dec p.in_kernel_threads;
  thread = update p.thread t (record (p.thread t) { in_handler = false });
})

-- `pthread_exit`
unfoldable pub pthread_exit : ℕ → Proc → Outcome Proc
unfolding wake_up_joiner bitmap_set
pthread_exit t p = do
  p₁ ← wake_up_joiner t p
  stacks ← bitmap_set p₁.stacks (p₁.thread t).stack_no false
  ok (set_status (record p₁ { stacks = stacks; active_threads = dec p₁.active_threads }) t zombie)

-- What `exit_if_exiting` does once interrupts are on again; a thread that dies is freed later.
abbrev pub leave_as : ℕ → Leave × Proc → Outcome Proc
leave_as t (thread_exits free_pcb, p) = ok (set_status p t dying)
leave_as t (pthread_exits, p) = pthread_exit t p
leave_as t (goes_on, p) = ok p

-- The end of `syscall_handler`: `exit_if_exiting (pcb, false)` as a whole.
unfoldable pub leave_kernel : ℕ → Proc → Outcome Proc
unfolding exit_if_exiting pthread_exit
leave_kernel t p = exit_if_exiting t false p >>= leave_as t

-- One test of the loop of `pthread_exit_main`: the thread blocks, or goes on (true).
unfoldable pub main_waits : ℕ → Proc → Bool × Proc
main_waits t p = if ltb 1 p.active_threads then (false, set_status p t blocked) else (true, p)

abbrev is_exiting_none : Exiting → Bool
is_exiting_none exiting_none = true
is_exiting_none exiting_main = false
is_exiting_none exiting_normal = false
is_exiting_none exiting_exception = false

-- What `pthread_exit_main` and `process_exit_normal` do first. A thread that comes second leaves by
-- `exit_if_exiting (pcb, true)`.
pub data Enter : Type 0 where
  second : Enter
  waits : Enter
  proceeds : Enter

abbrev entered : Bool × Proc → Enter × Proc
entered (false, p) = (waits, p)
entered (true, p) = (proceeds, p)

unfoldable pub pthread_exit_main : ℕ → Proc → Outcome (Enter × Proc)
unfolding wake_up_joiner set_exit_code main_waits
pthread_exit_main t p = do
  assert (t == p.main_thread)
  let p₁ = set_exit_code p 0
  let begins = (do
    p₂ ← wake_up_joiner t (record p₁ { exiting = exiting_main; thread_exiting = some t })
    ok (entered (main_waits t p₂)))
  if is_exiting_none p₁.exiting then begins else ok (second, p₁)

-- `exit_helper` for a thread that is not in front of the list (`flag` is false) or is put there.
unfoldable pub exit_helper : ℕ → Bool → Proc → Proc
exit_helper t flag p =
    set_status (if flag then record p { threads = t ∷ p.threads } else p) t zombie

abbrev pub normal_by : Exiting → ℕ → Proc → Outcome (Enter × Proc)
normal_by exiting_none t p =
    ok (proceeds, record p { exiting = exiting_normal; thread_exiting = some t })
normal_by exiting_main t p =
    assert (not (t == p.main_thread))
    >> ok (
      proceeds,
      record (exit_helper p.main_thread false p) { in_kernel_threads = dec p.in_kernel_threads },
    )
normal_by exiting_normal t p = ok (second, p)
normal_by exiting_exception t p = ok (second, p)

-- `process_exit_normal` to its first `intr_set_level`, for a thread with a process.
unfoldable pub process_exit_normal : ℕ → ℕ → Proc → Outcome (Enter × Proc)
unfolding wake_up_joiner set_exit_code exit_helper
process_exit_normal t exit_code p = do
  p₁ ← wake_up_joiner t p
  normal_by (set_exit_code p₁ exit_code).exiting t (set_exit_code p₁ exit_code)

-- The first pass: a thread that is not in the kernel becomes a zombie, and its joiner is woken.
unfoldable pub first_pass : List ℕ → Proc → Outcome Proc
unfolding wake_up_joiner
first_pass [] p = ok p
first_pass (pos ∷ rest) p =
    let zombied = wake_up_joiner pos (set_status p pos zombie) >>= first_pass rest in
    let later = first_pass rest p in if (p.thread pos).in_handler then later else zombied

unfoldable pub mark_zombies : ℕ → Proc → Outcome Proc
unfolding first_pass
mark_zombies t p =
    let threads = remove t p.threads in first_pass threads (record p { threads = threads })

-- After the pass the thread blocks unless it is the only one in the kernel (true).
unfoldable pub wait_for_kernel : ℕ → Proc → Bool × Proc
wait_for_kernel t p =
    if ltb 1 p.in_kernel_threads then (false, set_status p t blocked) else (true, p)

-- The second pass frees the threads that are left.
unfoldable pub second_pass : Proc → Outcome Proc
second_pass p = assert (p.in_kernel_threads == 1) >> ok (record p { threads = [] })

-- The end of `process_exit_tail`: whether it frees the PCB.
unfoldable pub drop_pcb : Proc → Bool × Proc
drop_pcb p =
    if p.in_kernel_threads == 1
    then (true, p)
    else (false, record p { in_kernel_threads = dec p.in_kernel_threads })

-- The loop of `process_exit_exception`, which frees every thread.
unfoldable pub clean_each : List ℕ → Proc → Proc
clean_each [] p = record p { threads = [] }
clean_each (pos ∷ rest) p =
    let handled = record p { in_kernel_threads = dec p.in_kernel_threads } in
    if (p.thread pos).in_handler then clean_each rest handled else clean_each rest p

abbrev pub exception_by : Exiting → Proc → Outcome Proc
exception_by exiting_none p = ok p
exception_by exiting_main p = ok (exit_helper p.main_thread false p)
exception_by exiting_normal p = requeued p.thread_exiting
  where
    requeued : Option ℕ → Outcome Proc
    requeued none = undefined
    requeued (some t) = ok (exit_helper t true p)
exception_by exiting_exception p = ok p

unfoldable pub process_exit_exception : ℕ → ℕ → Proc → Outcome Proc
unfolding set_exit_code exit_helper clean_each
process_exit_exception t exit_code p = do
  assert (exit_code == minus_one)
  let p₁ = set_exit_code (record p { exiting = exiting_exception }) exit_code
  p₂ ← exception_by p₁.exiting p₁
  ok (clean_each (remove t p₂.threads) p₂)

-- What the search of `pthread_join` finds: the thread, whether it is the main thread, and whether to
-- wait for it.
pub record Found : Type 0 where
  pub pos : ℕ
  pub is_main : Bool
  pub block_wait : Bool

abbrev is_zombie : Status → Bool
is_zombie zombie = true
is_zombie _ = false

abbrev is_unjoined : Option ℕ → Bool
is_unjoined none = true
is_unjoined (some t) = false

unfoldable pub join_search : ℕ → List ℕ → Proc → Option Found
join_search tid [] p = none
join_search tid (pos ∷ rest) p =
    let status = (p.thread pos).status in
    let found = some (record {
      pos = pos;
      is_main = pos == p.main_thread;
      block_wait = not (is_zombie status || is_dying status);
    }) in
    if (p.thread pos).tid == tid
    then (if is_unjoined (p.thread pos).joined_by then found else none)
    else join_search tid rest p

abbrev pub points_to : Option ℕ → ℕ → Bool
points_to none t = false
points_to (some s) t = s == t

abbrev is_exiting_main : Exiting → Bool
is_exiting_main exiting_none = false
is_exiting_main exiting_main = true
is_exiting_main exiting_normal = false
is_exiting_main exiting_exception = false

-- The wait: `none` is `TID_ERROR`; otherwise whether the thread blocks.
unfoldable pub join_wait : ℕ → Found → Proc → Option (Bool × Proc)
join_wait t f p =
    let joined = set_thread p f.pos (record (p.thread f.pos) { joined_by = some t }) in
    let waits = f.block_wait && (not (is_exiting_main p.exiting) || not f.is_main) in
    if (t == f.pos) || points_to (p.thread t).joined_by f.pos
    then none
    else if waits
    then some (true, set_status joined t blocked)
    else some (false, joined)

-- After the wait: the result, and the thread leaves the list and is freed unless it is the main one.
unfoldable pub join_take : Found → Proc → Outcome (ℕ × Proc)
join_take f p =
    let taken =
      assert (is_zombie (p.thread f.pos).status)
      >> ok ((p.thread f.pos).tid, record p { threads = remove f.pos p.threads }) in
    if f.is_main then ok ((p.thread f.pos).tid, p) else taken
