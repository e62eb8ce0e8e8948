-- ===== src/Timer.antt =====
-- src/devices/timer.c: threads that sleep for a number of ticks, in a list by the time to wake up.
pub mod Wake
mod Tests
use qba.Prelude.{
  ℕ, zero, suc, ◌+◌, Bool, true, false, not, ltb, leb, ◌==◌, if◌then◌else◌, List, [], ◌∷◌, Option,
  some,
}
use qba.Prelude.Outcome.{Outcome, ok, panic, ◌>>=◌, ◌>>◌, assert}
use qba.Threads.Order.{insert_ordered}
use qba.Threads.Types.{Kernel, Thread, timer_sleep_list, set_thread, set_list}
use qba.Threads.Sched.{thread_unblock, thread_block, thread_tick}

-- `wake_up_before` with `less_sleep`.
unfoldable pub wake_up_before : (ℕ → Thread) → ℕ → ℕ → Bool
wake_up_before thread a b = leb (thread a).wake_up (thread b).wake_up

-- The running thread's place in the list of sleepers.
unfoldable pub timer_enter : ℕ → Kernel → Kernel
unfolding wake_up_before
timer_enter ticks k =
    let t = k.current in
    let k₁ = set_thread k t (record (k.thread t) { wake_up = k.ticks + ticks }) in
    let k₂ =
      set_list k₁ timer_sleep_list
        (insert_ordered (wake_up_before k₁.thread) t (k₁.lists timer_sleep_list)) in
    set_thread k₂ t (record (k₂.thread t) { queue = some timer_sleep_list })

unfoldable pub timer_sleep : ℕ → Kernel → Outcome Kernel
unfolding timer_enter thread_block
timer_sleep ticks k = thread_block (timer_enter ticks k)

-- The loop of `timer_interrupt` over the list of sleepers.
unfoldable pub wake_loop : List ℕ → Kernel → Outcome Kernel
unfolding thread_unblock
wake_loop [] k = ok k
wake_loop (t ∷ rest) k = do
  let wakes = (do k' ← thread_unblock t (set_list k timer_sleep_list rest); wake_loop rest k')
  if leb (k.thread t).wake_up k.ticks then wakes else ok k

unfoldable pub timer_interrupt : Kernel → Outcome Kernel
unfolding wake_loop thread_tick
timer_interrupt k = do
  let k₁ = record k { ticks = k.ticks + 1 }
  k₂ ← wake_loop (k₁.lists timer_sleep_list) k₁
  ok (thread_tick k₂)
