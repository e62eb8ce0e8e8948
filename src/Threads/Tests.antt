-- ===== src/Threads/Tests.antt =====
-- The theorems on threads at small concrete states of the kernel.
use qba.Prelude.{
  ℕ, ◌+◌, ◌≤◌, ◌≡◌, refl, false, arith, Option, none, some, List, [], ◌∷◌, update, subst,
  ℕ_discrete,
}
use qba.Prelude.Outcome.{Outcome, ok, panic, undefined}
use qba.Threads.Types.{Status, running, ready, blocked, done, Thread, sched_prio, Kernel}
use qba.Threads.Order.{insert_ordered, mem, Falls}
use qba.Threads.Sched.{thread_yield}
use qba.Threads.Donate.{donate_pri_acquire}
use qba.Threads.Donate.Chain.{Queues, Locks, e_pri_of}
use qba.Threads.Donate.Law.{
  Donating, Donated, donate_pri_acquire_lem, Blocks, donate_pri_acquire-Blocks,
}
use qba.Threads.Donate.Orphan.{donation_halts}
use qba.Threads.Sync.{lock_acquire, lock_dropped, lock_held_by_current_thread}
use qba.Threads.Exclusion.Run.{Start, Reach, start, step, acquires, Reach-Excl, mutual_exclusion}
use qba.Threads.Exclusion.Restore.{lock_queue_of, Highest, lock_dropped_lem}
use qba.Threads.Urgent.{Elected, thread_yield_lem}

-- A thread of priority `p`.
abbrev thread_of : Status → ℕ → Option ℕ → List ℕ → Option ℕ → Thread
thread_of status p waits holds queue = record {
  tid = 1;
  status = status;
  wake_up = 0;
  donated_for = waits;
  lock_queue = holds;
  b_pri = p;
  e_pri = p;
  queue = queue;
  frame = done;
}

-- Thread 0 runs and every lock is free.
abbrev quiet : Kernel
quiet = record {
  thread = update (λ t. thread_of blocked 31 none [] none) 0 (thread_of running 31 none [] none);
  lock = λ l. record { holder = none; state = 1; semaphore = l; pri = 0 };
  lock_cnt = 2;
  sema = λ s. record { value = 1; waiters = s + 2 };
  lists = λ q. [];
  all_list = 0 ∷ [];
  current = 0;
  idle_thread = 9;
  initial_thread = 0;
  policy = sched_prio;
  in_intr = false;
  yield_on_return = false;
  thread_ticks = 0;
  ticks = 0;
  freed = [];
}

quiet-Start : Start quiet
quiet-Start = record {
  distinct = λ l m e. e;
  value = λ l. refl;
  holder = λ l. refl;
  lock_queue = λ t. ground arith;
  frame = λ t. ground arith;
}

abbrev left_by : Outcome Kernel → Kernel
left_by (ok k) = k
left_by panic = quiet
left_by undefined = quiet

-- After thread 0 has taken lock 0.
abbrev taken : Kernel
unfolding lock_acquire
taken = left_by (lock_acquire 0 quiet)

run : Reach quiet taken
unfolding lock_acquire
run = step start (acquires 0 refl refl)

mutual_exclusion_example : taken.current ≡ taken.current
unfolding lock_acquire mem insert_ordered
mutual_exclusion_example = mutual_exclusion 0 taken.current taken.current quiet-Start run refl refl

lock_dropped_lem_example :
    (k' : Kernel) × (lock_dropped 0 taken ≡ ok k')
    × ((k'.lock 0).holder ≡ none)
    × (mem 0 (lock_queue_of k' taken.current) ≡ false)
    × Highest k' taken.current (e_pri_of k' taken.current) (lock_queue_of k' taken.current)
unfolding lock_acquire lock_held_by_current_thread
lock_dropped_lem_example = lock_dropped_lem 0 taken (Reach-Excl quiet-Start run) refl

-- Thread 0 of priority 40 runs and waits for lock 0, which thread 1 of priority `p` holds; thread 1
-- is ready, and waits for what `waits` says.
abbrev scene : ℕ → Option ℕ → Kernel
scene p waits = record quiet {
  thread =
      update
        (update (λ t. thread_of blocked 31 none [] none) 1
          (thread_of ready p waits (0 ∷ []) (some 0)))
        0 (thread_of running 40 (some 0) [] none);
  lock = update quiet.lock 0 (record { holder = some 1; state = 0; semaphore = 0; pri = p });
  lists = update (λ q. []) 0 (1 ∷ []);
}

scene-Queues : (p : ℕ) (waits : Option ℕ) → Queues (scene p waits)
unfolding mem
scene-Queues p waits = record {
  placed = λ m t q o ne e. ground arith;
  only = λ t q e. ground arith;
  ordered = λ q ne. elim (ℕ_discrete 0 q) [
    | yes e ↦
        subst (λ q. Falls (e_pri_of (scene p waits)) ((scene p waits).lists q)) e (tt, refl, tt)
    | no z ↦ ground arith
  ];
  awake = λ l h e z. ground arith;
}

scene-Locks : (p : ℕ) (waits : Option ℕ) → Locks (scene p waits)
unfolding mem
scene-Locks p waits = record {
  holds = λ l h e. ground arith;
  owned = λ l h e. ground arith;
  falls = λ h. ground arith;
}

scene-Donating : Donating 2 (scene 31 none) (some 0)
scene-Donating = record {
  queues = scene-Queues 31 none;
  locks = scene-Locks 31 none;
  alive = λ t l w. (ground arith, (1, ground arith));
  waits = λ t l h ne w o. ground arith;
  held = λ l h o. ground arith;
}

donate_pri_acquire_lem_example :
    (k' : Kernel) × (donate_pri_acquire 0 0 (scene 31 none) ≡ ok k') × Donated 2 k'
donate_pri_acquire_lem_example = donate_pri_acquire_lem {k = scene 31 none} 0 scene-Donating refl

donate_pri_acquire-Blocks_example :
    (k' : Kernel) × (donate_pri_acquire 0 0 (scene 31 none) ≡ ok k')
    × ((t h : ℕ) → Blocks k' t h → e_pri_of k' t ≤ e_pri_of k' h)
donate_pri_acquire-Blocks_example =
    donate_pri_acquire-Blocks {k = scene 31 none} 0 scene-Donating refl

donation_halts_example : donate_pri_acquire 0 0 (scene 31 (some 1)) ≡ panic
donation_halts_example =
    donation_halts {k = scene 31 (some 1)} 0 1 1 (scene-Queues 31 (some 1))
      (scene-Locks 31 (some 1)) refl (omega arith) (omega arith) (omega arith) refl refl
      (omega arith)

thread_yield_lem_example :
    (k' : Kernel) × (thread_yield (scene 31 none) ≡ ok k') × Elected (scene 31 none) k'
unfolding mem
thread_yield_lem_example =
    thread_yield_lem (scene 31 none) refl refl (omega arith) (tt, refl, tt) refl
