-- ===== src/Threads/Exclusion/Calls.antt =====
-- The invariant behind mutual exclusion under the calls of src/threads/synch.c on semaphores and
-- condition variables, and under the continuation of a call that slept.
use qba.Prelude.{
  ℕ, ◌-◌, ◌≡◌, ◌≢◌, refl, sym, subst, Bool, true, false, not, ◌==◌, if◌then◌else◌, Bool-cases, inl,
  inr, arith, none, some, List, [], ◌∷◌, ltb,
}
use qba.Prelude.Outcome.{
  Outcome, ok, panic, undefined, ◌>>=◌, Ensures, returns, halts, strays, Ensures-bind, Ensures-map,
  Ensures-assert,
}
use qba.KernelList.Sort.{list_sort}
use qba.Threads.Types.{
  Kernel, Frame, done, sema_downing, lock_acquiring, lock_releasing, cond_released, cond_woken,
  set_frame, set_queue, set_list, set_sema,
}
use qba.Threads.Sched.{
  thread_before, insert_thread, thread_unblock, thread_yield, thread_get_priority,
}
use qba.Threads.Sync.{
  sema_down_round, sema_down, sleep_in, lock_held_by_current_thread, acquire_round, lock_acquire,
  lock_up, lock_release, cond_block, cond_wait, signal_front, cond_signal, broadcast_loop,
  cond_broadcast, resume, sorted_or_undefined, sorted_or_undefined,
}
use qba.Threads.Exclusion.Same.{
  Same, Same-refl, Same-trans, Same-then, Same₁, keeps, block-Same, yield-Same, yield_to-Same,
  unblock-Same,
}
use qba.Threads.Exclusion.Inv.{Excl, Excl-Same, Locks-same, Releases}
use qba.Threads.Exclusion.Moves.{
  set_frame-Excl, sleep_in-Excl, acquire_round-Excl, lock_acquire-Excl,
}
use qba.Threads.Exclusion.Release.{lock_dropped-Excl, lock_up-Excl}

-- A semaphore that is not part of a lock.
abbrev pub Plain : Kernel → ℕ → Type 0
Plain k s = (l : ℕ) → (k.lock l).semaphore ≢ s

abbrev pub frame_of : Kernel → Frame
frame_of k = (k.thread k.current).frame

pub sema_down-Excl : (s : ℕ) (k : Kernel) → Plain k s → Excl k → Ensures Excl (sema_down s k)
unfolding sema_down sema_down_round
sema_down-Excl s k plain v = Ensures-assert (not k.in_intr) _ λ off.
    elim (Bool-cases ((k.sema s).value == 0)) [
      | inl e ↦ rw e (Ensures-bind (λ r. Excl r.1 × (r.0 ≡ false)) asleep λ r h. woken r h)
      | inr e ↦ rw e (returns _ (set_frame-Excl k.current done _ (λ m z. cc) lowered))
    ]
  where
    lowered : Excl (set_sema k s (record (k.sema s) { value = (k.sema s).value - 1 }))
    lowered = record {
      locks = Locks-same {k = k} (λ l. refl) (λ l. refl) (λ t. refl) v.locks;
      distinct = v.distinct;
      one = λ l. ground (arith, v.one l, plain l);
      held = λ l h e. ground (arith, v.held l h, plain l);
      free = v.free;
      pending = λ t l e. ground (arith, v.pending t l, plain l);
      sole = v.sole;
    }

    woken :
        (r : Bool × Kernel)
        → Excl r.1 × (r.0 ≡ false)
        → Ensures Excl (ok (if r.0 then set_frame r.1 k.current done else r.1))
    woken (false, k') (w, e) = returns k' w
    woken (true, k') (w, e) = cc

    asleep :
        Ensures
          (λ (r : Bool × Kernel). Excl r.1 × (r.0 ≡ false))
          (do k' ← sleep_in (k.sema s).waiters (sema_downing s) k; ok (false, k'))
    asleep =
        Ensures-bind Excl (sleep_in-Excl _ (sema_downing s) k (λ m e. cc) v)
          λ k' w. returns (false, k') (w, refl)

cond_block-Excl : (c l : ℕ) (k : Kernel) → Excl k → Ensures Excl (cond_block c l k)
unfolding cond_block
cond_block-Excl c l k v = Ensures-map (block-Same _) (λ k' a.
    Excl-Same (set_frame-Excl k.current (cond_woken l) _ (λ m e. cc) (Excl-Same v queued)) a)
  where
    queued : Same k (set_queue k k.current (some c))
    queued = record {
      lock = λ l. refl;
      sema = λ s. refl;
      lock_queue = λ u. ground arith;
      frame = λ u. ground arith;
    }

pub resume-Excl :
    (k : Kernel) → ((s : ℕ) → frame_of k ≢ sema_downing s) → Excl k → Ensures Excl (resume k)
unfolding resume
resume-Excl k plain v = by_frame (frame_of k) refl
  where
    by_frame :
        (f : Frame)
        → frame_of k ≡ f
        → Ensures Excl (elim f [
          | done ↦ ok k
          | sema_downing s ↦ sema_down s k
          | lock_acquiring l ↦ acquire_round l k
          | lock_releasing l ↦ lock_up l done k
          | cond_released c l ↦ cond_block c l k
          | cond_woken l ↦ lock_acquire l (set_frame k k.current done)
        ])
    by_frame done e = returns k v
    by_frame (sema_downing s) e = absurd (plain s e)
    by_frame (lock_acquiring l) e = acquire_round-Excl l k v
    by_frame (lock_releasing l) e = lock_up-Excl l done k (λ m z. cc) e v
    by_frame (cond_released c l) e = cond_block-Excl c l k v
    by_frame (cond_woken l) e =
        lock_acquire-Excl l _ (set_frame-Excl k.current done k (λ m z. cc) v)

inserted-Same : (c t : ℕ) (k : Kernel) → Same k (insert_thread c t k)
unfolding insert_thread
inserted-Same c t k = record {
  lock = λ l. refl;
  sema = λ s. refl;
  lock_queue = λ u. refl;
  frame = λ u. refl;
}

lock_release-Excl :
    (l : ℕ) (f : Frame) (k : Kernel)
    → ((m : ℕ) → f ≢ lock_releasing m)
    → Excl k
    → Ensures Excl (lock_release l f k)
unfolding lock_release
lock_release-Excl l f k away v = Ensures-assert (lock_held_by_current_thread l k) _ λ own.
    Ensures-bind (λ k'. Excl k' × Releases k' k.current l × (k'.current ≡ k.current))
      (lock_dropped-Excl l k v own)
      λ k₁ (w, r, c). lock_up-Excl l f k₁ away (subst (λ t. Releases k₁ t l) (sym c) r) w

pub cond_wait-Excl : (c l : ℕ) (k : Kernel) → Excl k → Ensures Excl (cond_wait c l k)
unfolding cond_wait
cond_wait-Excl c l k v = Ensures-assert (not k.in_intr) _ λ off.
    Ensures-assert (lock_held_by_current_thread l k) _ λ own.
      Ensures-bind Excl
        (lock_release-Excl l (cond_released c l) _ (λ m e. cc)
          (Excl-Same v (inserted-Same c k.current k)))
        λ k' w. goes_on (k'.current == k.current) k' w
  where
    goes_on :
        (b : Bool) (k' : Kernel)
        → Excl k'
        → Ensures Excl (if b then cond_block c l k' else undefined)
    goes_on true k' w = cond_block-Excl c l k' w
    goes_on false k' w = strays

anything {ℓ} : {A : Type ℓ} (m : Outcome A) → Ensures (λ a. Unit {0}) m
anything (ok a) = returns a tt
anything panic = halts
anything undefined = strays

woken-Same : (c t : ℕ) (rest : List ℕ) (k : Kernel) → Same k (set_queue (set_list k c rest) t none)
woken-Same c t rest k = record {
  lock = λ l. refl;
  sema = λ s. refl;
  lock_queue = λ u. ground arith;
  frame = λ u. ground arith;
}

unblocked-Same :
    (c t : ℕ) (rest : List ℕ) (k : Kernel)
    → Ensures (Same k) (thread_unblock t (set_queue (set_list k c rest) t none))
unblocked-Same c t rest k = Same-then (woken-Same c t rest k) (
    keeps (thread_unblock t (set_queue (set_list k c rest) t none))
      (unblock-Same t (set_queue (set_list k c rest) t none)))

signal_front-Same : (c : ℕ) (ts : List ℕ) (k : Kernel) → Ensures (Same₁ k) (signal_front c ts k)
unfolding signal_front
signal_front-Same c [] k = returns _ (Same-refl k)
signal_front-Same c (t ∷ rest) k =
    Ensures-bind (Same k) (unblocked-Same c t rest k) λ k' a. returns (some t, k') a

pub signal-Same : (c l : ℕ) (k : Kernel) → Ensures (Same k) (cond_signal c l k)
unfolding cond_signal
signal-Same c l k = Ensures-assert (not k.in_intr) _ λ off.
    Ensures-assert (lock_held_by_current_thread l k) _ λ own.
      Ensures-bind (λ ts. Unit {0})
        (anything (sorted_or_undefined (list_sort (thread_before k.thread) (k.lists c))))
        λ ts u.
          Ensures-bind (Same₁ k) (signal_front-Same c ts k)
            λ r a. Same-then a (yield_to-Same r.0 r.1)

broadcast_loop-Same :
    (c : ℕ) (ts : List ℕ) (flag : Bool) (k : Kernel)
    → Ensures (Same₁ k) (broadcast_loop c ts flag k)
unfolding broadcast_loop
broadcast_loop-Same c [] flag k = returns _ (Same-refl k)
broadcast_loop-Same c (t ∷ rest) flag k = Ensures-bind (Same k) (unblocked-Same c t rest k) λ k' a.
    Ensures-map
      (broadcast_loop-Same c rest
        (if ltb (thread_get_priority k') (k'.thread t).e_pri then true else flag) k')
      (λ r b. Same-trans a b)

pub broadcast-Same : (c : ℕ) (k : Kernel) → Ensures (Same k) (cond_broadcast c k)
unfolding cond_broadcast
broadcast-Same c k =
    Ensures-bind (Same₁ k) (broadcast_loop-Same c (k.lists c) false k) λ r a. gives_way r.0 r.1 a
  where
    gives_way :
        (b : Bool) (k' : Kernel)
        → Same k k'
        → Ensures (Same k) (if b then thread_yield k' else ok k')
    gives_way true k' a = Same-then a (yield-Same k')
    gives_way false k' a = returns k' a
