-- ===== src/Intq.antt =====
-- src/devices/intq.c: a ring of bytes between an interrupt handler and threads, for calls by the
-- handler, where `ASSERT(!intr_context())` halts the machine instead of a wait. The waits of threads
-- are not modelled.
pub mod Fifo
mod Tests
use qba.Prelude.{
  ℕ, zero, suc, ◌+◌, ◌%◌, Bool, true, false, not, Option, none, some, ◌==◌, if◌then◌else◌, update,
}
use qba.Prelude.Outcome.{Outcome, ok, panic, ◌>>=◌, ◌>>◌, assert}
use qba.Threads.Types.{Kernel}
use qba.Threads.Sched.{thread_unblock}

-- `INTQ_BUFSIZE`
abbrev pub intq_bufsize : ℕ
intq_bufsize = 64

-- `struct intq`, without its lock.
pub record Intq : Type 0 where
  pub not_full : Option ℕ
  pub not_empty : Option ℕ
  pub buf : ℕ → ℕ
  pub head : ℕ
  pub tail : ℕ

-- `next`
abbrev pub next_pos : ℕ → ℕ
next_pos pos = (pos + 1) % intq_bufsize

unfoldable pub intq_init : (ℕ → ℕ) → Intq
intq_init buf = record { not_full = none; not_empty = none; buf = buf; head = 0; tail = 0 }

unfoldable pub intq_empty : Intq → Bool
intq_empty q = q.head == q.tail

unfoldable pub intq_full : Intq → Bool
intq_full q = next_pos q.head == q.tail

-- The kernel after `signal`; its caller resets the waiter.
unfoldable pub signal : Option ℕ → Kernel → Outcome Kernel
unfolding thread_unblock
signal none k = ok k
signal (some waiter) k = thread_unblock waiter k

unfoldable pub intq_getc : Intq → Kernel → Outcome (ℕ × Intq × Kernel)
unfolding intq_empty signal
intq_getc q k = do
  assert (not (intq_empty q))
  let byte = q.buf q.tail
  k' ← signal q.not_full k
  ok (byte, record q { tail = next_pos q.tail; not_full = none }, k')

unfoldable pub intq_putc : ℕ → Intq → Kernel → Outcome (Intq × Kernel)
unfolding intq_full signal
intq_putc byte q k = do
  assert (not (intq_full q))
  k' ← signal q.not_empty k
  ok (record q { buf = update q.buf q.head byte; head = next_pos q.head; not_empty = none }, k')
