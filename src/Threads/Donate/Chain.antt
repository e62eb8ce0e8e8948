-- ===== src/Threads/Donate/Chain.antt =====
-- The order that the thread and lock queues of src/threads/thread.c and src/threads/synch.c are kept
-- in, round by round of a donation.
use qba.Prelude.{
  ℕ, ◌≡◌, ◌≢◌, refl, true, false, arith, Option, none, some, List, ℕ_discrete, subst, ap, ◌∙◌,
}
use qba.Prelude.Outcome.{ok}
use qba.Threads.Order.{
  insert_ordered, remove, mem, Falls, Ranks, Falls-insert, Falls-remove, Falls-same, Falls-ext,
  mem-insert, mem-remove,
}
use qba.Threads.Types.{Kernel, timer_sleep_list, set_lock, set_list, set_e_pri, set_lock_queue}
use qba.Threads.Sched.{thread_before}
use qba.Threads.Donate.{lock_before, raise_lock, requeue, raise_thread}

abbrev pub e_pri_of : Kernel → ℕ → ℕ
e_pri_of k t = (k.thread t).e_pri

abbrev pub pri_of : Kernel → ℕ → ℕ
pri_of k l = (k.lock l).pri

-- A thread is in no list but the one that its `queue` points to, and a holder of a lock that does not
-- run is in that one, if it points to one. Every list of threads but that of the timer falls by
-- priority, and holders of locks do not sleep on the timer.
pub record Queues (k : Kernel) : Type 0 where
  pub placed :
      (l t q : ℕ)
      → (k.lock l).holder ≡ some t
      → t ≢ k.current
      → (k.thread t).queue ≡ some q
      → mem t (k.lists q) ≡ true
  pub only : (t q : ℕ) → mem t (k.lists q) ≡ true → (k.thread t).queue ≡ some q
  pub ordered : (q : ℕ) → q ≢ timer_sleep_list → Falls (e_pri_of k) (k.lists q)
  pub awake : (l h : ℕ) → (k.lock l).holder ≡ some h → (k.thread h).queue ≢ some timer_sleep_list

-- The lock queue of a thread holds the locks that it holds, and falls by their priority.
pub record Locks (k : Kernel) : Type 0 where
  pub holds : (l h : ℕ) → (k.lock l).holder ≡ some h → mem l (k.thread h).lock_queue ≡ true
  pub owned : (l h : ℕ) → mem l (k.thread h).lock_queue ≡ true → (k.lock l).holder ≡ some h
  pub falls : (h : ℕ) → Falls (pri_of k) (k.thread h).lock_queue

pub thread_before-Ranks : (k : Kernel) → Ranks (thread_before k.thread) (e_pri_of k)
unfolding thread_before
thread_before-Ranks k = record { before = λ x y h. ground arith; after = λ x y h. ground arith }

pub lock_before-Ranks : (k : Kernel) → Ranks (lock_before k.lock) (pri_of k)
unfolding lock_before
lock_before-Ranks k = record { before = λ x y h. ground arith; after = λ x y h. ground arith }

-- The kernel after `raise_lock`.
abbrev pub lock_raised : ℕ → ℕ → ℕ → Kernel → Kernel
lock_raised donee l p k =
    let k' = set_lock k l (record (k.lock l) { pri = p }) in
    set_lock_queue k' donee
      (insert_ordered (lock_before k'.lock) l (remove l (k.thread donee).lock_queue))

pub raise_lock-ok :
    (donee l p : ℕ) (k : Kernel)
    → mem l (k.thread donee).lock_queue ≡ true
    → raise_lock donee l p k ≡ ok (lock_raised donee l p k)
unfolding raise_lock
raise_lock-ok donee l p k h = rw h refl

module _ (donee l p : ℕ) (k : Kernel) where
  pub lock_raised-Queues : Queues k → Queues (lock_raised donee l p k)
  lock_raised-Queues v = record {
    placed = λ m t q o ne e. v.placed m t q (ground arith) ne (ground arith);
    only = λ t q e. ground (arith, v.only t q);
    ordered = λ q ne. Falls-ext (e_pri_of k) _ (k.lists q) (λ y. ground arith) (v.ordered q ne);
    awake = λ m h e z. v.awake m h (ground arith) (ground arith);
  }

  pub lock_raised-Locks : (k.lock l).holder ≡ some donee → Locks k → Locks (lock_raised donee l p k)
  lock_raised-Locks own v = record {
    holds = λ m h e. ground (arith, members m, v.holds m h);
    owned = λ m h e. ground (arith, members m, v.owned m h);
    falls = λ h. elim (ℕ_discrete donee h) [
      | yes e ↦ subst (λ h. Falls pri' (k'.thread h).lock_queue) e here
      | no ne ↦ there h ne
    ];
  }
    where
      k' : Kernel
      k' = lock_raised donee l p k

      pri' : ℕ → ℕ
      pri' = pri_of k'

      rest : List ℕ
      rest = remove l (k.thread donee).lock_queue

      gone : mem l rest ≡ false
      gone = ground (arith, mem-remove (pri_of k) l l (k.thread donee).lock_queue (v.falls donee))

      members : (z : ℕ) → mem z (k'.thread donee).lock_queue ≡ mem z (k.thread donee).lock_queue
      members z = ground (
        arith,
        mem-insert (lock_before k'.lock) l z rest,
        mem-remove (pri_of k) l z (k.thread donee).lock_queue (v.falls donee),
        v.holds l donee own,
      )

      here : Falls pri' (k'.thread donee).lock_queue
      here = ground (
        arith,
        Falls-insert (lock_before-Ranks k') l rest gone (
            Falls-same (pri_of k) pri' l rest (λ y ne. ground arith) gone
              (Falls-remove (pri_of k) l (k.thread donee).lock_queue (v.falls donee))),
      )

      there : (h : ℕ) → donee ≢ h → Falls pri' (k'.thread h).lock_queue
      there h ne = ground (
        arith,
        Falls-same (pri_of k) pri' l (k.thread h).lock_queue (λ y ne. ground arith)
            (ground (arith, v.owned l h)) (v.falls h),
      )

abbrev pub requeued : ℕ → Option ℕ → Kernel → Kernel
requeued t none k = k
requeued t (some q) k =
    set_list k q (insert_ordered (thread_before k.thread) t (remove t (k.lists q)))

-- The kernel after `raise_thread`.
abbrev pub thread_raised : ℕ → ℕ → Kernel → Kernel
thread_raised donee p k = requeued donee (k.thread donee).queue (set_e_pri k donee p)

module _ (donee p : ℕ) (k : Kernel) (v : Queues k) (away : donee ≢ k.current) {l : ℕ}
    (own : (k.lock l).holder ≡ some donee) where
  requeue-ok :
      (o : Option ℕ)
      → (k.thread donee).queue ≡ o
      → requeue donee o (set_e_pri k donee p) ≡ ok (requeued donee o (set_e_pri k donee p))
  unfolding requeue
  requeue-ok none e = refl
  requeue-ok (some q) e = rw (v.placed l donee q own away e) refl

  pub raise_thread-ok : raise_thread donee p k ≡ ok (thread_raised donee p k)
  unfolding raise_thread
  raise_thread-ok = requeue-ok (k.thread donee).queue refl

  -- A list that the thread is not in keeps its order.
  elsewhere :
      (g : ℕ → ℕ) (q : ℕ)
      → ((y : ℕ) → donee ≢ y → g y ≡ e_pri_of k y)
      → (k.thread donee).queue ≢ some q
      → q ≢ timer_sleep_list
      → Falls g (k.lists q)
  elsewhere g q e out ne =
      Falls-same (e_pri_of k) g donee (k.lists q) e (ground (arith, v.only donee q))
        (v.ordered q ne)

  requeued-Queues :
      (o : Option ℕ) → (k.thread donee).queue ≡ o → Queues (requeued donee o (set_e_pri k donee p))
  requeued-Queues none e = record {
    placed = λ m t q o ne f. v.placed m t q (ground arith) ne (ground arith);
    only = λ t q f. ground (arith, v.only t q);
    ordered = λ q ne. elsewhere _ q (λ y z. ground arith) (ground arith) ne;
    awake = λ m h f z. v.awake m h (ground arith) (ground arith);
  }
  requeued-Queues (some q) e = record {
    placed = λ m t q' o ne f. ground (arith, members t, v.placed m t q' o ne);
    only = λ t q' f. ground (arith, members t, v.only t q');
    ordered = λ q' ne. elim (ℕ_discrete q q') [
      | yes z ↦ subst (λ q. Falls (e_pri_of k') (k'.lists q)) z here
      | no z ↦ ground (arith, elsewhere (e_pri_of k') q' (λ y z. ground arith) (ground arith) ne)
    ];
    awake = λ m h f z. v.awake m h (ground arith) (ground arith);
  }
    where
      k₁ : Kernel
      k₁ = set_e_pri k donee p

      k' : Kernel
      k' = requeued donee (some q) k₁

      sorted : Falls (e_pri_of k) (k.lists q)
      sorted = v.ordered q (λ z. v.awake l donee own (e ∙ ap some z))

      rest : List ℕ
      rest = remove donee (k.lists q)

      gone : mem donee rest ≡ false
      gone = ground (arith, mem-remove (e_pri_of k) donee donee (k.lists q) sorted)

      members : (t : ℕ) → mem t (k'.lists q) ≡ mem t (k.lists q)
      members t = ground (
        arith,
        mem-insert (thread_before k₁.thread) donee t rest,
        mem-remove (e_pri_of k) donee t (k.lists q) sorted,
        v.placed l donee q own away e,
      )

      at_q : insert_ordered (thread_before k₁.thread) donee rest ≡ k'.lists q
      at_q = ground arith

      here : Falls (e_pri_of k') (k'.lists q)
      here = subst (Falls (e_pri_of k')) at_q (
          Falls-insert (thread_before-Ranks k₁) donee rest gone (
            Falls-same (e_pri_of k) (e_pri_of k₁) donee rest (λ y ne. ground arith) gone
              (Falls-remove (e_pri_of k) donee (k.lists q) sorted)))

  pub thread_raised-Queues : Queues (thread_raised donee p k)
  thread_raised-Queues = requeued-Queues (k.thread donee).queue refl

  lock_queue-set_e_pri :
      (h : ℕ) → (k.thread h).lock_queue ≡ ((set_e_pri k donee p).thread h).lock_queue
  lock_queue-set_e_pri h = ground arith

  requeued-Locks : (o : Option ℕ) → Locks k → Locks (requeued donee o (set_e_pri k donee p))
  requeued-Locks none w = record {
    holds = λ m h e. ground (arith, w.holds m h);
    owned = λ m h e. ground (arith, w.owned m h);
    falls = λ h. subst (Falls (pri_of k)) (lock_queue-set_e_pri h) (w.falls h);
  }
  requeued-Locks (some q) w = record {
    holds = λ m h e. ground (arith, w.holds m h);
    owned = λ m h e. ground (arith, w.owned m h);
    falls = λ h. subst (Falls (pri_of k)) (lock_queue-set_e_pri h) (w.falls h);
  }

  pub thread_raised-Locks : Locks k → Locks (thread_raised donee p k)
  thread_raised-Locks = requeued-Locks (k.thread donee).queue
