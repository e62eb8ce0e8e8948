-- ===== src/Intq/Tests.antt =====
-- The theorems on the ring at a queue of two bytes that has wrapped, with no thread waiting.
use qba.Prelude.{◌≡◌, ◌<◌, ◌⊎◌, arith, none, [], true, false}
use qba.Prelude.Outcome.{ok, panic, ◌>>=◌}
use qba.Threads.Types.{Kernel, blocked, done, sched_prio}
use qba.Intq.{Intq, signal, intq_putc}
use qba.Intq.Fifo.{IntqValid, count, Pushed, intq_putc_lem}

abbrev wrapped : Intq
wrapped = record { not_full = none; not_empty = none; buf = λ i. i; head = 1; tail = 63 }

wrapped-IntqValid : IntqValid wrapped
wrapped-IntqValid = record { head_in = omega arith; tail_in = omega arith }

abbrev any_kernel : Kernel
any_kernel = record {
  thread = λ t. record {
    tid = 1;
    status = blocked;
    wake_up = 0;
    donated_for = none;
    lock_queue = [];
    b_pri = 31;
    e_pri = 31;
    queue = none;
    frame = done;
  };
  lock = λ l. record { holder = none; state = 1; semaphore = l; pri = 0 };
  lock_cnt = 0;
  sema = λ s. record { value = 1; waiters = s };
  lists = λ q. [];
  all_list = [];
  current = 0;
  idle_thread = 9;
  initial_thread = 0;
  policy = sched_prio;
  in_intr = true;
  yield_on_return = false;
  thread_ticks = 0;
  ticks = 0;
  freed = [];
}

intq_putc_lem_example :
    ((count wrapped ≡ 63) × (intq_putc 7 wrapped any_kernel ≡ panic))
    ⊎ ((count wrapped < 63)
        × ((q' : Intq) × (intq_putc 7 wrapped any_kernel
              ≡ (do k' ← signal wrapped.not_empty any_kernel; ok (q', k')))
            × Pushed 7 wrapped q'))
intq_putc_lem_example = intq_putc_lem 7 wrapped any_kernel wrapped-IntqValid
