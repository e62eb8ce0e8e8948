-- ===== src/Threads/Sync.antt =====
-- src/threads/synch.c: semaphores, locks and condition variables. A function that may sleep ends at
-- the sleep, with the rest of its work in the `frame` of the thread; `resume` goes on with it.
use qba.Prelude.{
  ℕ, ◌+◌, ◌-◌, ◌%◌, Bool, true, false, not, ◌&&◌, Option, none, some, List, [], ◌∷◌, ltb, leb, ◌==◌,
  if◌then◌else◌,
}
use qba.Prelude.Outcome.{Outcome, ok, undefined, ◌>>=◌, ◌>>◌, assert}
use qba.KernelList.Sort.{list_sort}
use qba.Threads.Order.{remove, mem}
use qba.Threads.Types.{
  Frame, done, sema_downing, lock_acquiring, lock_releasing, cond_released, cond_woken, Thread,
  Lock, Kernel, set_thread, set_lock, set_sema, set_list, set_queue, set_frame, is_none,
}
use qba.Threads.Sched.{
  thread_before, insert_thread, thread_block, thread_yield, thread_unblock, thread_get_priority,
}
use qba.Threads.Donate.{insert_lock, donate_pri_acquire}

-- `waiters` is the address of the list that belongs to the semaphore.
unfoldable pub sema_init : ℕ → ℕ → Kernel → Kernel
sema_init s value k =
    let waiters = (k.sema s).waiters in
    set_list (set_sema k s (record { value = value; waiters = waiters })) waiters []

-- The running thread goes to sleep in a list, and goes on at `frame`.
unfoldable pub sleep_in : ℕ → Frame → Kernel → Outcome Kernel
unfolding insert_thread thread_block
sleep_in list frame k =
    let t = k.current in
    thread_block (set_frame (set_queue (insert_thread list t k) t (some list)) t frame)

-- A round of the loop of `sema_down`: whether the semaphore has been taken.
unfoldable pub sema_down_round : ℕ → Frame → Kernel → Outcome (Bool × Kernel)
unfolding sleep_in
sema_down_round s frame k =
    let asleep = (do k' ← sleep_in (k.sema s).waiters frame k; ok (false, k')) in
    if (k.sema s).value == 0
    then asleep
    else ok (true, set_sema k s (record (k.sema s) { value = (k.sema s).value - 1 }))

unfoldable pub sema_down : ℕ → Kernel → Outcome Kernel
unfolding sema_down_round
sema_down s k = do
  assert (not k.in_intr)
  (taken, k') ← sema_down_round s (sema_downing s) k
  ok (if taken then set_frame k' k.current done else k')

unfoldable pub sema_try_down : ℕ → Kernel → Bool × Kernel
sema_try_down s k =
    if ltb 0 (k.sema s).value
    then (true, set_sema k s (record (k.sema s) { value = (k.sema s).value - 1 }))
    else (false, k)

-- The first of the waiters becomes ready; which one, if any.
unfoldable pub wake_front : ℕ → List ℕ → Kernel → Outcome (Option ℕ × Kernel)
unfolding thread_unblock
wake_front list [] k = ok (none, k)
wake_front list (t ∷ rest) k = do k' ← thread_unblock t (set_list k list rest); ok (some t, k')

-- The running thread gives way to one that it has woken and that is more urgent.
unfoldable pub yield_to : Option ℕ → Kernel → Outcome Kernel
unfolding thread_yield thread_get_priority
yield_to none k = ok k
yield_to (some t) k =
    let yields = thread_yield k in
    if not k.in_intr && ltb (thread_get_priority k) (k.thread t).e_pri then yields else ok k

unfoldable pub sema_up : ℕ → Kernel → Outcome Kernel
unfolding wake_front yield_to
sema_up s k = do
  (t, k₁) ← wake_front (k.sema s).waiters (k.lists (k.sema s).waiters) k
  yield_to t (set_sema k₁ s (record (k₁.sema s) { value = (k₁.sema s).value + 1 }))

-- `int8_t` as a bit pattern.
abbrev pub dec_int8 : ℕ → ℕ
dec_int8 n = (n + 255) % 256

abbrev pub inc_int8 : ℕ → ℕ
inc_int8 n = (n + 1) % 256

abbrev pub is_negative : ℕ → Bool
is_negative n = leb 128 n

unfoldable pub lock_init : ℕ → Kernel → Kernel
unfolding sema_init
lock_init l k =
    let s = (k.lock l).semaphore in
    sema_init s 1 (set_lock k l (record { holder = none; state = 1; semaphore = s; pri = 0 }))

abbrev pub is_some_eq : Option ℕ → ℕ → Bool
is_some_eq none t = false
is_some_eq (some h) t = h == t

unfoldable pub lock_held_by_current_thread : ℕ → Kernel → Bool
lock_held_by_current_thread l k = is_some_eq (k.lock l).holder k.current

-- What follows `sema_down` in `lock_acquire`.
unfoldable pub lock_taken : ℕ → Kernel → Kernel
unfolding insert_lock
lock_taken l k =
    let t = k.current in
    let k₁ = set_lock k l (record (k.lock l) { pri = (k.thread t).e_pri; holder = some t }) in
    let k₂ = set_thread k₁ t (record (k₁.thread t) { donated_for = none; frame = done }) in
    insert_lock t l k₂

-- A round of the `sema_down` in `lock_acquire`, and what follows it.
unfoldable pub acquire_round : ℕ → Kernel → Outcome Kernel
unfolding sema_down_round lock_taken
acquire_round l k = do
  (taken, k') ← sema_down_round (k.lock l).semaphore (lock_acquiring l) k
  ok (if taken then lock_taken l k' else k')

-- What comes before it: the state of the lock, the wait, and the donation.
unfoldable pub announce : ℕ → Kernel → Outcome Kernel
unfolding donate_pri_acquire
announce l k =
    let t = k.current in
    let k₁ = set_lock k l (record (k.lock l) { state = dec_int8 (k.lock l).state }) in
    let k₂ = set_thread k₁ t (record (k₁.thread t) { donated_for = some l }) in
    let donates = donate_pri_acquire t l k₂ in
    if is_negative (k₂.lock l).state && not (is_none (k₂.lock l).holder) then donates else ok k₂

unfoldable pub lock_acquire : ℕ → Kernel → Outcome Kernel
unfolding announce acquire_round lock_held_by_current_thread
lock_acquire l k = do
  assert (not k.in_intr)
  assert (not (lock_held_by_current_thread l k))
  k' ← announce l k
  acquire_round l k'

unfoldable pub lock_try_acquire : ℕ → Kernel → Outcome (Bool × Kernel)
unfolding lock_held_by_current_thread sema_try_down insert_lock
lock_try_acquire l k = do
  assert (not (lock_held_by_current_thread l k))
  let (success, k₁) = sema_try_down (k.lock l).semaphore k
  let t = k.current
  let lock' = record (k₁.lock l) {
    state = dec_int8 (k₁.lock l).state;
    pri = (k.thread t).e_pri;
    holder = some t;
  }
  ok (success, if success then insert_lock t l (set_lock k₁ l lock') else k₁)

-- The effective priority that is left to a thread by the locks that it still holds.
abbrev pub priority_left : Thread → (ℕ → Lock) → List ℕ → ℕ
priority_left t lock [] = t.b_pri
priority_left t lock (l ∷ rest) = (lock l).pri

-- `lock_release` up to its `sema_up`, where interrupts are on again; undefined if the lock is not
-- in the queue of the thread.
unfoldable pub lock_dropped : ℕ → Kernel → Outcome Kernel
lock_dropped l k =
    let t = k.thread k.current in
    let rest = remove l t.lock_queue in
    let k₁ =
      set_lock k l
        (record (k.lock l) { holder = none; pri = 0; state = inc_int8 (k.lock l).state }) in
    let t' = record t {
      lock_queue = rest;
      e_pri = priority_left t k₁.lock rest;
      frame = lock_releasing l;
    } in
    if mem l t.lock_queue then ok (set_thread k₁ k.current t') else undefined

-- The `sema_up` of `lock_release`; `frame` is where the thread goes on after it.
unfoldable pub lock_up : ℕ → Frame → Kernel → Outcome Kernel
unfolding sema_up
lock_up l frame k = sema_up (k.lock l).semaphore (set_frame k k.current frame)

unfoldable pub lock_release : ℕ → Frame → Kernel → Outcome Kernel
unfolding lock_held_by_current_thread lock_dropped lock_up
lock_release l frame k = do
  assert (lock_held_by_current_thread l k)
  k' ← lock_dropped l k
  lock_up l frame k'

-- A condition variable is the address of its list of waiters.
unfoldable pub cond_init : ℕ → Kernel → Kernel
cond_init c k = set_list k c []

-- `cond_wait` after the lock is released: the running thread goes to sleep.
unfoldable pub cond_block : ℕ → ℕ → Kernel → Outcome Kernel
unfolding thread_block
cond_block c l k =
    let t = k.current in thread_block (set_frame (set_queue k t (some c)) t (cond_woken l))

-- The thread is in the list of the condition by its `elem` already: if the release gives up the CPU,
-- `thread_enqueue` links the same `elem` into the ready list, and both lists are corrupted.
unfoldable pub cond_wait : ℕ → ℕ → Kernel → Outcome Kernel
unfolding lock_held_by_current_thread insert_thread lock_release cond_block
cond_wait c l k = do
  assert (not k.in_intr)
  assert (lock_held_by_current_thread l k)
  let t = k.current
  k' ← lock_release l (cond_released c l) (insert_thread c t k)
  let goes_on = cond_block c l k'
  if k'.current == t then goes_on else undefined

abbrev pub sorted_or_undefined : Option (List ℕ) → Outcome (List ℕ)
sorted_or_undefined none = undefined
sorted_or_undefined (some xs) = ok xs

-- Takes the front thread out of the list and makes it ready.
unfoldable pub signal_front : ℕ → List ℕ → Kernel → Outcome (Option ℕ × Kernel)
unfolding thread_unblock
signal_front c [] k = ok (none, k)
signal_front c (t ∷ rest) k = do
  k' ← thread_unblock t (set_queue (set_list k c rest) t none)
  ok (some t, k')

unfoldable pub cond_signal : ℕ → ℕ → Kernel → Outcome Kernel
unfolding lock_held_by_current_thread signal_front yield_to list_sort thread_before
cond_signal c l k = do
  assert (not k.in_intr)
  assert (lock_held_by_current_thread l k)
  sorted ← sorted_or_undefined (list_sort (thread_before k.thread) (k.lists c))
  (t, k') ← signal_front c sorted k
  yield_to t k'

-- The loop of `cond_broadcast`; `flag` tells whether a more urgent thread has been woken.
unfoldable pub broadcast_loop : ℕ → List ℕ → Bool → Kernel → Outcome (Bool × Kernel)
unfolding thread_unblock thread_get_priority
broadcast_loop c [] flag k = ok (flag, k)
broadcast_loop c (t ∷ rest) flag k = do
  k' ← thread_unblock t (set_queue (set_list k c rest) t none)
  broadcast_loop c rest (if ltb (thread_get_priority k') (k'.thread t).e_pri then true else flag) k'

unfoldable pub cond_broadcast : ℕ → Kernel → Outcome Kernel
unfolding broadcast_loop thread_yield
cond_broadcast c k = do
  (flag, k') ← broadcast_loop c (k.lists c) false k
  let yields = thread_yield k'
  if flag then yields else ok k'

-- The running thread goes on where it stopped.
unfoldable pub resume : Kernel → Outcome Kernel
unfolding sema_down acquire_round lock_up cond_block lock_acquire
resume k = elim (k.thread k.current).frame [
  | done ↦ ok k
  | sema_downing s ↦ sema_down s k
  | lock_acquiring l ↦ acquire_round l k
  | lock_releasing l ↦ lock_up l done k
  | cond_released c l ↦ cond_block c l k
  | cond_woken l ↦ lock_acquire l (set_frame k k.current done)
]
