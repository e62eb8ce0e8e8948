-- ===== src/Threads/Exclusion/Run.antt =====
-- Runs of the thread system: one step is a call of src/threads/synch.c by the running thread, the
-- continuation of one that slept or was preempted, or a switch to another thread. The release of a
-- lock may be preempted between its two parts; a wait for a condition variable is preempted only
-- where it sleeps.
use qba.Prelude.{ℕ, ◌≡◌, ◌≢◌, ap, Bool, true, arith, none, []}
use qba.Prelude.Outcome.{ok, Ensures-ok}
use qba.Threads.Order.{mem}
use qba.Threads.Types.{Kernel, done, sema_downing}
use qba.Threads.Sched.{thread_block, thread_yield}
use qba.Threads.Sync.{
  sema_down, sema_up, lock_held_by_current_thread, lock_acquire, lock_try_acquire, lock_dropped,
  cond_wait, cond_signal, cond_broadcast, resume,
}
use qba.Threads.Exclusion.Same.{block-Same, yield-Same}
use qba.Threads.Exclusion.Calls.{
  Plain, frame_of, sema_down-Excl, resume-Excl, cond_wait-Excl, signal-Same, broadcast-Same,
}
use qba.Threads.Exclusion.Inv.{Excl, Excl-Same, value_of}
use qba.Threads.Exclusion.Moves.{lock_acquire-Excl, lock_try_acquire-Excl}
use qba.Threads.Exclusion.Release.{lock_dropped-Excl, sema_up-Excl}

pub data Step : Kernel → Kernel → Type 0 where
  acquires : {k k' : Kernel} (l : ℕ) → frame_of k ≡ done → lock_acquire l k ≡ ok k' → Step k k'
  tries :
      {k k' : Kernel} (l : ℕ) (success : Bool)
      → frame_of k ≡ done
      → lock_try_acquire l k ≡ ok (success, k')
      → Step k k'
  drops :
      {k k' : Kernel} (l : ℕ)
      → frame_of k ≡ done
      → lock_held_by_current_thread l k ≡ true
      → lock_dropped l k ≡ ok k'
      → Step k k'
  downs : {k k' : Kernel} (s : ℕ) → Plain k s → sema_down s k ≡ ok k' → Step k k'
  ups : {k k' : Kernel} (s : ℕ) → frame_of k ≡ done → Plain k s → sema_up s k ≡ ok k' → Step k k'
  waits : {k k' : Kernel} (c l : ℕ) → frame_of k ≡ done → cond_wait c l k ≡ ok k' → Step k k'
  signals : {k k' : Kernel} (c l : ℕ) → frame_of k ≡ done → cond_signal c l k ≡ ok k' → Step k k'
  broadcasts : {k k' : Kernel} (c : ℕ) → frame_of k ≡ done → cond_broadcast c k ≡ ok k' → Step k k'
  blocks : {k k' : Kernel} → thread_block k ≡ ok k' → Step k k'
  yields : {k k' : Kernel} → thread_yield k ≡ ok k' → Step k k'
  resumes : {k k' : Kernel} → ((s : ℕ) → frame_of k ≢ sema_downing s) → resume k ≡ ok k' → Step k k'

pub data Reach (k₀ : Kernel) : Kernel → Type 0 where
  start : Reach k₀ k₀
  step : {k k' : Kernel} → Reach k₀ k → Step k k' → Reach k₀ k'

-- Every lock has just been initialised and has a semaphore of its own, and no thread is in a call.
pub record Start (k : Kernel) : Type 0 where
  pub distinct : (l m : ℕ) → (k.lock l).semaphore ≡ (k.lock m).semaphore → l ≡ m
  pub value : (l : ℕ) → value_of k l ≡ 1
  pub holder : (l : ℕ) → (k.lock l).holder ≡ none
  pub lock_queue : (t : ℕ) → (k.thread t).lock_queue ≡ []
  pub frame : (t : ℕ) → (k.thread t).frame ≡ done

Start-Excl : (k : Kernel) → Start k → Excl k
unfolding mem
Start-Excl k v = record {
  locks = record {
    holds = λ l h e. absurd (ground (arith, v.holder l));
    owned = λ l h e. absurd (ground (arith, ap (mem l) (v.lock_queue h)));
    falls = λ h. ground (arith, v.lock_queue h);
  };
  distinct = v.distinct;
  one = λ l. ground (arith, v.value l);
  held = λ l h e. absurd (ground (arith, v.holder l));
  free = λ t l e. v.holder l;
  pending = λ t l e. absurd (ground (arith, v.frame t));
  sole = λ t u l e f. absurd (ground (arith, v.frame t));
}

pub Step-Excl : {k k' : Kernel} → Excl k → Step k k' → Excl k'
Step-Excl {k} v (acquires l f e) = Ensures-ok (lock_acquire-Excl l k v) e
Step-Excl {k} v (tries l success f e) = Ensures-ok (lock_try_acquire-Excl l k v f) e
Step-Excl {k} v (drops l f h e) = (Ensures-ok (lock_dropped-Excl l k v h) e).0
Step-Excl {k} v (downs s p e) = Ensures-ok (sema_down-Excl s k p v) e
Step-Excl {k} v (ups s f p e) = Ensures-ok (sema_up-Excl s k v (λ l z. absurd (p l z))) e
Step-Excl {k} v (waits c l f e) = Ensures-ok (cond_wait-Excl c l k v) e
Step-Excl {k} v (signals c l f e) = Excl-Same v (Ensures-ok (signal-Same c l k) e)
Step-Excl {k} v (broadcasts c f e) = Excl-Same v (Ensures-ok (broadcast-Same c k) e)
Step-Excl {k} v (blocks e) = Excl-Same v (Ensures-ok (block-Same k) e)
Step-Excl {k} v (yields e) = Excl-Same v (Ensures-ok (yield-Same k) e)
Step-Excl {k} v (resumes p e) = Ensures-ok (resume-Excl k p v) e

pub Reach-Excl : {k k' : Kernel} → Start k → Reach k k' → Excl k'
Reach-Excl {k} v start = Start-Excl k v
Reach-Excl v (step r s) = Step-Excl (Reach-Excl v r) s

-- Mutual exclusion: from a state where every lock has been initialised, with a semaphore of its own,
-- and no thread is in a call, in whatever order the threads take the steps of `Step`, no lock is ever
-- in the lock queues of two threads.
pub mutual_exclusion :
    {k k' : Kernel} (l t u : ℕ)
    → Start k
    → Reach k k'
    → mem l (k'.thread t).lock_queue ≡ true
    → mem l (k'.thread u).lock_queue ≡ true
    → t ≡ u
mutual_exclusion l t u v r a b =
    let w = (Reach-Excl v r).locks in ground (arith, w.owned l t a, w.owned l u b)
