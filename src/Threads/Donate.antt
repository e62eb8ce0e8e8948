-- ===== src/Threads/Donate.antt =====
-- `donate_pri_acquire` of src/threads/synch.c: the priority of a thread that is about to wait for a
-- lock goes up the chain of holders.
pub mod Chain
pub mod Law
pub mod Orphan
use qba.Prelude.{
  ℕ, zero, suc, Bool, true, false, Option, none, some, List, ltb, leb, ◌==◌, if◌then◌else◌,
}
use qba.Prelude.Outcome.{Outcome, ok, panic, undefined, ◌>>=◌}
use qba.Threads.Order.{insert_ordered, remove, mem}
use qba.Threads.Types.{Thread, Lock, Kernel, set_lock, set_list, set_e_pri, set_lock_queue}
use qba.Threads.Sched.{thread_before}

-- `lock_before`: a lock goes before those of its own priority.
unfoldable pub lock_before : (ℕ → Lock) → ℕ → ℕ → Bool
lock_before lock a b = leb (lock b).pri (lock a).pri

-- `list_insert_ordered (&t->lock_queue, &lock->elem, &lock_before, NULL)`
unfoldable pub insert_lock : ℕ → ℕ → Kernel → Kernel
unfolding lock_before
insert_lock t l k =
    set_lock_queue k t (insert_ordered (lock_before k.lock) l (k.thread t).lock_queue)

-- The lock's new priority, and `list_remove` and `list_insert_ordered` in the queue of the holder;
-- undefined if the lock is not in that queue.
unfoldable pub raise_lock : ℕ → ℕ → ℕ → Kernel → Outcome Kernel
unfolding lock_before
raise_lock donee l p k =
    let k' = set_lock k l (record (k.lock l) { pri = p }) in
    let rest = remove l (k.thread donee).lock_queue in
    if mem l (k.thread donee).lock_queue
    then ok (set_lock_queue k' donee (insert_ordered (lock_before k'.lock) l rest))
    else undefined

-- `list_remove` and `list_insert_ordered` in the list that `queue` points to; undefined if the
-- thread is not in that list.
unfoldable pub requeue : ℕ → Option ℕ → Kernel → Outcome Kernel
unfolding thread_before
requeue t none k = ok k
requeue t (some q) k =
    if mem t (k.lists q)
    then ok (set_list k q (insert_ordered (thread_before k.thread) t (remove t (k.lists q))))
    else undefined

-- The holder's new priority, and its new place in the queue that it is in.
unfoldable pub raise_thread : ℕ → ℕ → Kernel → Outcome Kernel
unfolding requeue
raise_thread donee p k = requeue donee (k.thread donee).queue (set_e_pri k donee p)

-- How one round of the loop leaves it: with a result, or at the next donor and the lock that it
-- waits for.
pub data Round : Type 0 where
  finish : Outcome Kernel → Round
  climb : (donor lock : ℕ) → Kernel → Round

unfoldable pub climb_from : ℕ → Outcome Kernel → Round
climb_from donee (ok k) = elim (k.thread donee).donated_for [
  | none ↦ finish (ok k)
  | some l ↦ climb donee l k
]
climb_from donee panic = finish panic
climb_from donee undefined = finish undefined

unfoldable pub after_lock : ℕ → ℕ → Outcome Kernel → Round
unfolding climb_from raise_thread
after_lock donee p (ok k) =
    if leb p (k.thread donee).e_pri
    then finish (ok k)
    else climb_from donee (raise_thread donee p k)
after_lock donee p panic = finish panic
after_lock donee p undefined = finish undefined

-- One round, at a donor, the lock that it waits for and the holder of that lock.
unfoldable pub donate_round : ℕ → ℕ → Option ℕ → Kernel → Round
unfolding after_lock raise_lock
donate_round donor l none k = finish panic
donate_round donor l (some donee) k =
    let p = (k.thread donor).e_pri in
    if leb p (k.lock l).pri then finish (ok k) else after_lock donee p (raise_lock donee l p k)

-- The loop on fuel; `none` means that the fuel ran out.
unfoldable pub donate : ℕ → ℕ → ℕ → Kernel → Option (Outcome Kernel)
donate zero donor l k = none
donate (suc fuel) donor l k = elim (donate_round donor l (k.lock l).holder k) [
  | finish r ↦ some r
  | climb donor' l' k' ↦ donate fuel donor' l' k'
]

-- Without fuel the loop would not have ended.
abbrev pub or_undefined : Option (Outcome Kernel) → Outcome Kernel
or_undefined none = undefined
or_undefined (some r) = r

unfoldable pub donate_pri_acquire : ℕ → ℕ → Kernel → Outcome Kernel
unfolding donate
donate_pri_acquire self l k = or_undefined (donate (suc k.lock_cnt) self l k)
