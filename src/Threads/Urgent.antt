-- ===== src/Threads/Urgent.antt =====
-- Which thread runs after `thread_yield` of src/threads/thread.c under the priority scheduler.
use qba.Prelude.{
  ℕ, ◌≤◌, ◌≡◌, ◌≢◌, refl, ap, ◌∙◌, true, false, ◌||◌, some, List, [], ◌∷◌, ◌==◌, arith, ℕ_discrete,
}
use qba.Prelude.Outcome.{ok}
use qba.Threads.Order.{insert_ordered, mem, mem-insert, Falls, Falls-insert, Falls-ext, AtMost-mem}
use qba.Threads.Types.{
  Kernel, running, ready, sched_prio, ready_list, set_list, set_status, set_queue,
}
use qba.Threads.Sched.{
  thread_before, insert_thread, thread_enqueue, pop_or_idle, next_thread_to_run,
  thread_schedule_prio, thread_switch_tail, schedule, thread_yield,
}
use qba.Threads.Donate.Chain.{e_pri_of, thread_before-Ranks}

-- The kernel once the front thread of the ready list runs.
abbrev pub switched : ℕ → List ℕ → Kernel → Kernel
switched t rest k = record (set_status (set_list k ready_list rest) t running) {
  current = t;
  thread_ticks = 0;
}

schedule-front :
    (t : ℕ) (rest : List ℕ) (k : Kernel)
    → k.policy ≡ sched_prio
    → k.lists ready_list ≡ t ∷ rest
    → (k.thread k.current).status ≡ ready
    → schedule k ≡ ok (switched t rest k)
unfolding schedule next_thread_to_run thread_schedule_prio pop_or_idle thread_switch_tail
schedule-front t rest k p l s = ground arith

-- What a thread that yields leaves for the scheduler.
abbrev pub yielding : Kernel → Kernel
yielding k =
    let k₁ = set_queue k k.current (some ready_list) in
    set_status
      (set_list k₁ ready_list
        (insert_ordered (thread_before k₁.thread) k.current (k.lists ready_list)))
      k.current ready

yield-schedules :
    (k : Kernel)
    → k.policy ≡ sched_prio
    → k.in_intr ≡ false
    → k.current ≢ k.idle_thread
    → thread_yield k ≡ schedule (yielding k)
unfolding thread_yield thread_enqueue insert_thread
yield-schedules k p i ne = ground arith

-- The thread `t` runs, is one of the threads that were running or ready, and is at least as urgent as
-- each of these; the others are in the ready list, by priority.
pub record Elected (k k' : Kernel) : Type 0 where
  pub candidate : (k'.current == k.current || mem k'.current (k.lists ready_list)) ≡ true
  pub first :
      (u : ℕ)
      → (u == k.current || mem u (k.lists ready_list)) ≡ true
      → e_pri_of k u ≤ e_pri_of k k'.current
  pub others :
      (u : ℕ)
      → u ≢ k'.current
      → mem u (k'.lists ready_list) ≡ (u == k.current || mem u (k.lists ready_list))
  pub runs : (k'.thread k'.current).status ≡ running
  pub ordered : Falls (e_pri_of k') (k'.lists ready_list)

front-first :
    (k : Kernel) (xs : List ℕ)
    → (yielding k).lists ready_list ≡ xs
    → Falls (e_pri_of k) xs
    → ((u : ℕ) → mem u xs ≡ (u == k.current || mem u (k.lists ready_list)))
    → k.policy ≡ sched_prio
    → (k' : Kernel) × (schedule (yielding k) ≡ ok k') × Elected k k'
unfolding mem
front-first k [] l f m p = absurd (ground (arith, m k.current))
front-first k (t ∷ rest) l (most, once, f) m p = (
  switched t rest (yielding k),
  schedule-front t rest (yielding k) p l (ground arith),
  record {
    candidate = ground (arith, m t);
    first = λ u h. elim (ℕ_discrete u t) [
      | yes e ↦ ground (arith, ap (e_pri_of k) e)
      | no ne ↦ AtMost-mem (e_pri_of k) (e_pri_of k t) u rest most (ground (arith, m u))
    ];
    others = λ u ne. ground (arith, m u);
    runs = ground arith;
    ordered = Falls-ext (e_pri_of k) _ rest (λ y. ground arith) f;
  },
)

-- A thread other than the idle thread that yields under the priority scheduler, outside an interrupt
-- and with the ready list by priority, leaves the CPU to a thread that is at least as urgent as
-- itself and as each ready thread.
pub thread_yield_lem :
    (k : Kernel)
    → k.policy ≡ sched_prio
    → k.in_intr ≡ false
    → k.current ≢ k.idle_thread
    → Falls (e_pri_of k) (k.lists ready_list)
    → mem k.current (k.lists ready_list) ≡ false
    → (k' : Kernel) × (thread_yield k ≡ ok k') × Elected k k'
thread_yield_lem k p i ne f out =
    let (k', e, w) = front-first k _ refl sorted members p in (k', yield-schedules k p i ne ∙ e, w)
  where
    k₁ : Kernel
    k₁ = set_queue k k.current (some ready_list)

    members :
        (u : ℕ)
        → mem u ((yielding k).lists ready_list) ≡ (u == k.current || mem u (k.lists ready_list))
    members u = mem-insert (thread_before k₁.thread) k.current u (k.lists ready_list)

    sorted : Falls (e_pri_of k) ((yielding k).lists ready_list)
    sorted =
        Falls-ext (e_pri_of k₁) (e_pri_of k) _ (λ y. ground arith)
          (Falls-insert (thread_before-Ranks k₁) k.current (k.lists ready_list) out
            (Falls-ext (e_pri_of k) (e_pri_of k₁) (k.lists ready_list) (λ y. ground arith) f))
