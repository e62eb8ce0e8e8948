-- ===== src/Threads/Exclusion/Same.antt =====
-- The part of the state that the scheduler of src/threads/thread.c leaves alone: locks, semaphores,
-- lock queues and frames.
use qba.Prelude.{
  ℕ, not, ◌&&◌, ltb, ◌==◌, if◌then◌else◌, ◌≡◌, refl, Bool, true, false, arith, Option, none, some,
  List, [], ◌∷◌, ◌∙◌,
}
use qba.Prelude.Outcome.{
  Outcome, ok, panic, undefined, Ensures, returns, halts, strays, Ensures-bind, Ensures-map,
  Ensures-assert,
}
use qba.Threads.Types.{Kernel, set_status, set_list, blocked, ready, Status}
use qba.Threads.Sync.{wake_front, yield_to}
use qba.Threads.Sched.{
  thread_enqueue, thread_unblock, schedule, thread_block, thread_yield, pop_or_idle,
  thread_get_priority,
}

pub record Same (k k' : Kernel) : Type 0 where
  pub lock : (l : ℕ) → k'.lock l ≡ k.lock l
  pub sema : (s : ℕ) → k'.sema s ≡ k.sema s
  pub lock_queue : (t : ℕ) → (k'.thread t).lock_queue ≡ (k.thread t).lock_queue
  pub frame : (t : ℕ) → (k'.thread t).frame ≡ (k.thread t).frame

pub Same-trans : {k k' k'' : Kernel} → Same k k' → Same k' k'' → Same k k''
Same-trans a b = record {
  lock = λ l. b.lock l ∙ a.lock l;
  sema = λ s. b.sema s ∙ a.sema s;
  lock_queue = λ t. b.lock_queue t ∙ a.lock_queue t;
  frame = λ t. b.frame t ∙ a.frame t;
}

pub Same-refl : (k : Kernel) → Same k k
Same-refl k = record {
  lock = λ l. refl;
  sema = λ s. refl;
  lock_queue = λ t. refl;
  frame = λ t. refl;
}

pub enqueue-Same : (t : ℕ) (k k' : Kernel) → thread_enqueue t k ≡ ok k' → Same k k'
unfolding thread_enqueue
enqueue-Same t k k' e = record {
  lock = λ l. ground arith;
  sema = λ s. ground arith;
  lock_queue = λ u. ground arith;
  frame = λ u. ground arith;
}

pub schedule-Same : (k k' : Kernel) → schedule k ≡ ok k' → Same k k'
unfolding schedule pop_or_idle
schedule-Same k k' e = record {
  lock = λ l. ground arith;
  sema = λ s. ground arith;
  lock_queue = λ u. ground arith;
  frame = λ u. ground arith;
}

pub unblock-Same : (t : ℕ) (k k' : Kernel) → thread_unblock t k ≡ ok k' → Same k k'
unfolding thread_unblock
unblock-Same t k k' e = record {
  lock = λ l. ground arith;
  sema = λ s. ground arith;
  lock_queue = λ u. ground arith;
  frame = λ u. ground arith;
}

pub status-Same : (t : ℕ) (s : Status) (k : Kernel) → Same k (set_status k t s)
status-Same t s k = record {
  lock = λ l. refl;
  sema = λ s. refl;
  lock_queue = λ u. ground arith;
  frame = λ u. ground arith;
}

pub keeps :
    {k : Kernel} (m : Outcome Kernel) → ((k' : Kernel) → m ≡ ok k' → Same k k') → Ensures (Same k) m
keeps (ok k') h = returns k' (h k' refl)
keeps panic h = halts
keeps undefined h = strays

-- A step before another.
pub Same-then :
    {k k₁ : Kernel} {m : Outcome Kernel} → Same k k₁ → Ensures (Same k₁) m → Ensures (Same k) m
Same-then a h = Ensures-map h (λ k₂ b. Same-trans a b)

pub block-Same : (k : Kernel) → Ensures (Same k) (thread_block k)
unfolding thread_block
block-Same k = Ensures-assert (not k.in_intr) _ λ off.
    Same-then (status-Same k.current blocked k)
      (keeps (schedule (set_status k k.current blocked)) (schedule-Same _))

pub yield-Same : (k : Kernel) → Ensures (Same k) (thread_yield k)
unfolding thread_yield
yield-Same k = Ensures-assert (not k.in_intr) _ λ off.
    Ensures-bind (Same k) (first (k.current == k.idle_thread)) λ k₁ a.
      Same-then (Same-trans a (status-Same k.current ready k₁))
        (keeps (schedule (set_status k₁ k.current ready)) (schedule-Same _))
  where
    first : (b : Bool) → Ensures (Same k) (if b then ok k else thread_enqueue k.current k)
    first true = returns k (Same-refl k)
    first false = keeps (thread_enqueue k.current k) (enqueue-Same k.current k)

list-Same : (k : Kernel) (q : ℕ) (l : List ℕ) → Same k (set_list k q l)
list-Same k q l = record {
  lock = λ l. refl;
  sema = λ s. refl;
  lock_queue = λ t. refl;
  frame = λ t. refl;
}

abbrev pub Same₁ : {A : Type 0} → Kernel → A × Kernel → Type 0
Same₁ k r = Same k r.1

pub wake_front-Same :
    (list : ℕ) (ts : List ℕ) (k : Kernel) → Ensures (Same₁ k) (wake_front list ts k)
unfolding wake_front
wake_front-Same list [] k = returns _ (Same-refl k)
wake_front-Same list (t ∷ rest) k =
    Ensures-bind (Same k)
      (Same-then (list-Same k list rest)
        (keeps (thread_unblock t (set_list k list rest)) (unblock-Same t _)))
      λ k' a. returns _ a

pub yield_to-Same : (o : Option ℕ) (k : Kernel) → Ensures (Same k) (yield_to o k)
unfolding yield_to
yield_to-Same none k = returns k (Same-refl k)
yield_to-Same (some t) k = branch (not k.in_intr && ltb (thread_get_priority k) (k.thread t).e_pri)
  where
    branch : (b : Bool) → Ensures (Same k) (if b then thread_yield k else ok k)
    branch true = yield-Same k
    branch false = returns k (Same-refl k)
