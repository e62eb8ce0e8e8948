-- ===== src/Threads/Sched.antt =====
-- src/threads/thread.c: the ready list, the choice of the next thread, and the switch to it. Each
-- function runs with interrupts off, as its assertion or its `intr_disable` says.
use qba.Prelude.{
  ℕ, ◌+◌, Bool, true, false, not, ◌&&◌, Option, none, some, List, [], ◌∷◌, ◌++◌, ltb, leb, ◌==◌,
  if◌then◌else◌, update,
}
use qba.Prelude.Outcome.{Outcome, ok, panic, ◌>>=◌, ◌>>◌, assert}
use qba.Threads.Order.{insert_ordered, remove}
use qba.Threads.Types.{
  running, ready, blocked, dying, zombie, done, Thread, sched_fifo, sched_prio, sched_fair,
  sched_mlfqs, Kernel, ready_list, set_thread, set_list, set_status, set_queue, is_blocked,
  is_running, is_dying, is_empty,
}

-- `thread_before` with `grater_thread_pri`.
unfoldable pub thread_before : (ℕ → Thread) → ℕ → ℕ → Bool
thread_before thread a b = ltb (thread b).e_pri (thread a).e_pri

-- `list_insert_ordered (list, &t->elem, &thread_before, &grater_thread_pri)`
unfoldable pub insert_thread : ℕ → ℕ → Kernel → Kernel
insert_thread list t k = set_list k list (insert_ordered (thread_before k.thread) t (k.lists list))

unfoldable pub thread_enqueue : ℕ → Kernel → Outcome Kernel
unfolding insert_thread
thread_enqueue t k =
    let k' = set_queue k t (some ready_list) in
    elim k.policy [
      | sched_fifo ↦ ok (set_list k' ready_list (k.lists ready_list ++ t ∷ []))
      | sched_prio ↦ ok (insert_thread ready_list t k')
      | sched_fair ↦ panic
      | sched_mlfqs ↦ panic
    ]

unfoldable pub thread_unblock : ℕ → Kernel → Outcome Kernel
unfolding thread_enqueue
thread_unblock t k = do
  assert (is_blocked (k.thread t).status)
  k' ← thread_enqueue t k
  ok (set_status k' t ready)

-- `list_pop_front` of the ready list, or the idle thread.
unfoldable pub pop_or_idle : List ℕ → Kernel → ℕ × Kernel
pop_or_idle [] k = (k.idle_thread, k)
pop_or_idle (t ∷ rest) k = (t, set_list k ready_list rest)

unfoldable pub thread_schedule_fifo : Kernel → Outcome (ℕ × Kernel)
unfolding pop_or_idle
thread_schedule_fifo k = ok (pop_or_idle (k.lists ready_list) k)

unfoldable pub thread_schedule_prio : Kernel → Outcome (ℕ × Kernel)
unfolding pop_or_idle
thread_schedule_prio k = ok (pop_or_idle (k.lists ready_list) k)

-- The jump table, and the schedulers that only halt.
unfoldable pub next_thread_to_run : Kernel → Outcome (ℕ × Kernel)
unfolding thread_schedule_fifo thread_schedule_prio
next_thread_to_run k = elim k.policy [
  | sched_fifo ↦ thread_schedule_fifo k
  | sched_prio ↦ thread_schedule_prio k
  | sched_fair ↦ panic
  | sched_mlfqs ↦ panic
]

-- After the switch from `prev` to `cur`: a new time slice, and the page of a dead thread is freed.
unfoldable pub thread_switch_tail : Option ℕ → ℕ → Kernel → Outcome Kernel
thread_switch_tail none cur k =
    ok (record (set_status k cur running) { current = cur; thread_ticks = 0 })
thread_switch_tail (some prev) cur k =
    let k' = record (set_status k cur running) { current = cur; thread_ticks = 0 } in
    if is_dying (k'.thread prev).status && not (prev == k.initial_thread)
    then (assert (not (prev == cur)) >> ok (record k' { freed = prev ∷ k.freed }))
    else ok k'

unfoldable pub schedule : Kernel → Outcome Kernel
unfolding next_thread_to_run thread_switch_tail
schedule k = do
  (next, k') ← next_thread_to_run k
  assert (not (is_running (k.thread k.current).status))
  thread_switch_tail (if k.current == next then none else some k.current) next k'

unfoldable pub thread_block : Kernel → Outcome Kernel
unfolding schedule
thread_block k = do assert (not k.in_intr); schedule (set_status k k.current blocked)

unfoldable pub thread_yield : Kernel → Outcome Kernel
unfolding schedule thread_enqueue
thread_yield k = do
  assert (not k.in_intr)
  k' ← if k.current == k.idle_thread then ok k else thread_enqueue k.current k
  schedule (set_status k' k.current ready)

unfoldable pub thread_zombie : ℕ → Kernel → Outcome Kernel
unfolding schedule
thread_zombie t k = do
  assert (not k.in_intr)
  schedule (record (set_status k t zombie) { all_list = remove t k.all_list })

unfoldable pub thread_exit : Kernel → Outcome Kernel
unfolding schedule
thread_exit k = do
  assert (not k.in_intr)
  schedule (record (set_status k k.current dying) { all_list = remove k.current k.all_list })

-- `TIME_SLICE`
abbrev pub time_slice : ℕ
time_slice = 4

-- The part of `thread_tick` that the scheduler sees; it also counts ticks for the statistics.
unfoldable pub thread_tick : Kernel → Kernel
thread_tick k =
    let n = k.thread_ticks + 1 in
    record k {
      thread_ticks = n;
      yield_on_return = if leb time_slice n then true else k.yield_on_return;
    }

unfoldable pub thread_get_priority : Kernel → ℕ
thread_get_priority k = (k.thread k.current).e_pri

-- The new effective priority, and whether the thread gives up the CPU.
unfoldable pub new_e_pri : Thread → ℕ → ℕ × Bool
new_e_pri t new_priority =
    if ltb t.e_pri new_priority
    then (new_priority, false)
    else if is_empty t.lock_queue
    then (new_priority, true)
    else (t.e_pri, false)

unfoldable pub thread_set_priority : ℕ → Kernel → Outcome Kernel
unfolding new_e_pri thread_yield
thread_set_priority new_priority k =
    let t = k.thread k.current in
    let (e, flag) = new_e_pri t new_priority in
    let k' = set_thread k k.current (record t { e_pri = e; b_pri = new_priority }) in
    if new_priority == t.b_pri then ok k else if flag then thread_yield k' else ok k'

-- `PRI_MIN`, `PRI_DEFAULT` and `PRI_MAX`
abbrev pub pri_min : ℕ
pri_min = 0

abbrev pub pri_default : ℕ
pri_default = 31

abbrev pub pri_max : ℕ
pri_max = 63

unfoldable pub init_thread : ℕ → ℕ → Kernel → Outcome Kernel
init_thread t priority k = do
  assert (leb pri_min priority && leb priority pri_max)
  ok (record k {
    thread = update k.thread t (record {
      tid = 0;
      status = blocked;
      wake_up = 0;
      donated_for = none;
      lock_queue = [];
      b_pri = priority;
      e_pri = priority;
      queue = none;
      frame = done;
    });
    all_list = k.all_list ++ t ∷ [];
  })

-- `page` is what `palloc_get_page` answers and `tid` what `allocate_tid` does; `none` is TID_ERROR.
unfoldable pub thread_create : Option ℕ → ℕ → ℕ → Kernel → Outcome (Option ℕ × Kernel)
unfolding init_thread thread_unblock thread_get_priority thread_yield
thread_create none tid priority k = ok (none, k)
thread_create (some t) tid priority k = do
  k₁ ← init_thread t priority k
  k₂ ← thread_unblock t (set_thread k₁ t (record (k₁.thread t) { tid = tid }))
  k₃ ← if ltb (thread_get_priority k₂) priority then thread_yield k₂ else ok k₂
  ok (some tid, k₃)
