-- ===== src/Timer/Tests.antt =====
-- The theorem on a tick of the timer at a small kernel.
use qba.Prelude.{ℕ, ◌+◌, ◌≡◌, refl, true, false, arith, none, [], ◌∷◌, update}
use qba.Prelude.Outcome.{ok}
use qba.Threads.Order.{mem}
use qba.Threads.Types.{running, blocked, done, Kernel, Status, Thread, sched_prio, timer_sleep_list}
use qba.Timer.{timer_interrupt}
use qba.Timer.Wake.{Woken, timer_interrupt_lem}

abbrev thread_of : Status → ℕ → Thread
thread_of status wake_up = record {
  tid = 1;
  status = status;
  wake_up = wake_up;
  donated_for = none;
  lock_queue = [];
  b_pri = 31;
  e_pri = 31;
  queue = none;
  frame = done;
}

-- Threads 1 and 2 sleep until ticks 5 and 7, and it is tick 4.
abbrev sleepers : Kernel
sleepers = record {
  thread =
      update (update (λ t. thread_of running 0) 1 (thread_of blocked 5)) 2 (thread_of blocked 7);
  lock = λ l. record { holder = none; state = 1; semaphore = l; pri = 0 };
  lock_cnt = 0;
  sema = λ s. record { value = 1; waiters = s + 2 };
  lists = update (λ q. []) timer_sleep_list (1 ∷ 2 ∷ []);
  all_list = 0 ∷ 1 ∷ 2 ∷ [];
  current = 0;
  idle_thread = 9;
  initial_thread = 0;
  policy = sched_prio;
  in_intr = true;
  yield_on_return = false;
  thread_ticks = 0;
  ticks = 4;
  freed = [];
}

timer_interrupt_lem_example :
    (k' : Kernel) × (timer_interrupt sleepers ≡ ok k')
    × Woken (record sleepers { ticks = 4 + 1 }) (1 ∷ 2 ∷ []) k'
unfolding mem
timer_interrupt_lem_example =
    timer_interrupt_lem sleepers refl ((omega arith, tt), refl, (tt, refl, tt))
      (λ t m. ground arith)
