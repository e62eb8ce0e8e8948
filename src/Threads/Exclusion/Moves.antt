-- ===== src/Threads/Exclusion/Moves.antt =====
-- The invariant behind mutual exclusion under the acquisition of a lock (src/threads/synch.c).
use qba.Prelude.{
  fun_ext, ℕ, ◌-◌, ◌≡◌, ◌≢◌, refl, ap, subst, Bool, true, false, not, ◌&&◌, arith, some, ltb, ◌==◌,
  if◌then◌else◌, Bool-cases, inl, inr, ℕ_discrete,
}
use qba.Prelude.Outcome.{ok, ◌>>=◌, Ensures, returns, Ensures-bind, Ensures-map, Ensures-assert}
use qba.Threads.Order.{insert_ordered, Falls, Falls-insert, Falls-same, mem, mem-insert}
use qba.Threads.Types.{
  Kernel, Frame, done, lock_acquiring, lock_releasing, set_frame, set_thread, set_lock, set_sema,
  set_queue, is_none,
}
use qba.Threads.Sched.{insert_thread}
use qba.Threads.Donate.{donate_pri_acquire, insert_lock, lock_before}
use qba.Threads.Donate.Chain.{pri_of, lock_before-Ranks}
use qba.Threads.Sync.{
  sleep_in, sema_down_round, lock_held_by_current_thread, lock_taken, acquire_round, announce,
  lock_acquire, lock_try_acquire, sema_try_down, dec_int8, is_negative,
}
use qba.Threads.Exclusion.Same.{Same, block-Same}
use qba.Threads.Exclusion.Inv.{
  Excl, Excl-Same, Excl-Alike, Alike, Locks-same, value_of, Releases, donate_pri_acquire-Excl,
}

-- A frame that is not in the middle of a release may be put on any thread.
pub set_frame-Excl :
    (t : ℕ) (f : Frame) (k : Kernel)
    → ((l : ℕ) → f ≢ lock_releasing l)
    → Excl k
    → Excl (set_frame k t f)
set_frame-Excl t f k away v = record {
  locks =
      Locks-same {k = k} {k' = set_frame k t f} (λ l. refl) (λ l. refl) (λ u. ground arith) v.locks;
  distinct = v.distinct;
  one = v.one;
  held = v.held;
  free = λ u l e. v.free u l (was u l e);
  pending = λ u l e. v.pending u l (was u l e);
  sole = λ u w l e g. v.sole u w l (was u l e) (was w l g);
}
  where
    was : (u l : ℕ) → Releases (set_frame k t f) u l → Releases k u l
    was u l e = ground (arith, away l)

queued-Same : (list t : ℕ) (k : Kernel) → Same k (set_queue (insert_thread list t k) t (some list))
unfolding insert_thread
queued-Same list t k = record {
  lock = λ l. refl;
  sema = λ s. refl;
  lock_queue = λ u. ground arith;
  frame = λ u. ground arith;
}

pub sleep_in-Excl :
    (list : ℕ) (f : Frame) (k : Kernel)
    → ((l : ℕ) → f ≢ lock_releasing l)
    → Excl k
    → Ensures Excl (sleep_in list f k)
unfolding sleep_in
sleep_in-Excl list f k away v = Ensures-map (block-Same _) (λ k' a.
    Excl-Same (set_frame-Excl k.current f _ away (Excl-Same v (queued-Same list k.current k))) a)

-- A lock that is taken when its semaphore is up.
module _ (k : Kernel) (l : ℕ) (v : Excl k) (up : value_of k l ≢ 0) where
  abbrev downed : Kernel
  downed =
      set_sema k (k.lock l).semaphore
        (record (k.sema (k.lock l).semaphore) { value = value_of k l - 1 })

  nobody : (h : ℕ) → (k.lock l).holder ≢ some h
  nobody h e = up (v.held l h e)

  unqueued : (h : ℕ) → mem l (k.thread h).lock_queue ≡ false
  unqueued h = elim (Bool-cases (mem l (k.thread h).lock_queue)) [
    | inl e ↦ absurd (nobody h (v.locks.owned l h e))
    | inr e ↦ e
  ]

  abbrev got : Kernel
  got = lock_taken l downed

  got-members :
      (m h : ℕ)
      → mem m (got.thread h).lock_queue ≡ (
          if h == k.current
          then (if m == l then true else mem m (k.thread h).lock_queue)
          else mem m (k.thread h).lock_queue)
  unfolding lock_taken insert_lock
  got-members m h = ground (
    arith,
    mem-insert
        (lock_before
          (set_lock downed l
            (record (k.lock l) { pri = (k.thread k.current).e_pri; holder = some k.current })).lock)
        l m (k.thread k.current).lock_queue,
  )

  got-Falls : (h : ℕ) → Falls (pri_of got) (got.thread h).lock_queue
  unfolding lock_taken insert_lock
  got-Falls h = elim (ℕ_discrete k.current h) [
    | yes e ↦ subst (λ h. Falls (pri_of got) (got.thread h).lock_queue) e here
    | no ne ↦ there ne
  ]
    where
      old : (h : ℕ) → Falls (pri_of got) (k.thread h).lock_queue
      old h =
          Falls-same (pri_of k) (pri_of got) l (k.thread h).lock_queue (λ y ne. ground arith)
            (unqueued h) (v.locks.falls h)

      here : Falls (pri_of got) (got.thread k.current).lock_queue
      here = ground (
        arith,
        Falls-insert (lock_before-Ranks got) l (k.thread k.current).lock_queue (unqueued k.current)
            (old k.current),
      )

      there : k.current ≢ h → Falls (pri_of got) (got.thread h).lock_queue
      there ne = ground (arith, old h)

  got-Excl : Excl got
  unfolding lock_taken insert_lock
  got-Excl = record {
    locks = record {
      holds = λ m h e. ground (arith, got-members m h, v.locks.holds m h);
      owned = λ m h e. ground (arith, got-members m h, v.locks.owned m h, unqueued h);
      falls = got-Falls;
    };
    distinct = λ m n e. v.distinct m n (ground arith);
    one = λ m. ground (arith, v.one m, v.one l, v.distinct m l);
    held = λ m h e. ground (arith, v.held m h, v.one l, v.distinct m l);
    free = λ t m e. ground (arith, v.free t m, v.pending t m);
    pending = λ t m e. ground (arith, v.pending t m, v.distinct m l);
    sole = λ t u m e f. v.sole t u m (ground arith) (ground arith);
  }

  -- The same by `lock_try_acquire`.
  abbrev tried : Kernel
  tried = insert_lock k.current l (
      set_lock downed l (record (k.lock l) {
        state = dec_int8 (k.lock l).state;
        pri = (k.thread k.current).e_pri;
        holder = some k.current;
      }))

  tried-Excl : (k.thread k.current).frame ≡ done → Excl tried
  unfolding lock_taken insert_lock lock_before
  tried-Excl idle =
      Excl-Alike alike
        (Locks-same {k = got} {k' = tried} (λ m. ground arith) (λ m. ground arith) queues
          got-Excl.locks)
        got-Excl
    where
      same_order : lock_before got.lock ≡ lock_before tried.lock
      same_order = fun_ext λ a. fun_ext λ b. ground arith

      queues : (t : ℕ) → (tried.thread t).lock_queue ≡ (got.thread t).lock_queue
      queues t =
          ground (arith, ap (λ f. insert_ordered f l (k.thread k.current).lock_queue) same_order)

      alike : Alike got tried
      alike = record {
        holder = λ m. ground arith;
        semaphore = λ m. ground arith;
        value = λ s. refl;
        frame = λ t. ground arith;
      }

pub acquire_round-Excl : (l : ℕ) (k : Kernel) → Excl k → Ensures Excl (acquire_round l k)
unfolding acquire_round sema_down_round
acquire_round-Excl l k v = elim (Bool-cases (value_of k l == 0)) [
  | inl e ↦ rw e (Ensures-bind (λ r. Excl r.1 × (r.0 ≡ false)) asleep λ r h. woken r h)
  | inr e ↦ rw e (returns _ (got-Excl k l v (ground arith)))
]
  where
    woken :
        (r : Bool × Kernel)
        → Excl r.1 × (r.0 ≡ false)
        → Ensures Excl (ok (if r.0 then lock_taken l r.1 else r.1))
    woken (false, k') (w, e) = returns k' w
    woken (true, k') (w, e) = cc

    asleep :
        Ensures
          (λ (r : Bool × Kernel). Excl r.1 × (r.0 ≡ false))
          (do
            k' ← sleep_in (k.sema (k.lock l).semaphore).waiters (lock_acquiring l) k
            ok (false, k'))
    asleep =
        Ensures-bind Excl (sleep_in-Excl _ (lock_acquiring l) k (λ m e. cc) v)
          λ k' w. returns (false, k') (w, refl)

announce-Excl : (l : ℕ) (k : Kernel) → Excl k → Ensures Excl (announce l k)
unfolding announce
announce-Excl l k v = branch (is_negative (k₂.lock l).state && not (is_none (k₂.lock l).holder))
  where
    k₁ : Kernel
    k₁ = set_lock k l (record (k.lock l) { state = dec_int8 (k.lock l).state })

    k₂ : Kernel
    k₂ = set_thread k₁ k.current (record (k₁.thread k.current) { donated_for = some l })

    here : Excl k₂
    here =
        Excl-Alike alike
          (Locks-same {k = k} {k' = k₂} (λ m. ground arith) (λ m. ground arith) (λ t. ground arith)
            v.locks)
          v
      where
        alike : Alike k k₂
        alike = record {
          holder = λ m. ground arith;
          semaphore = λ m. ground arith;
          value = λ s. refl;
          frame = λ t. ground arith;
        }

    branch : (b : Bool) → Ensures Excl (if b then donate_pri_acquire k.current l k₂ else ok k₂)
    branch true = donate_pri_acquire-Excl k.current l k₂ here
    branch false = returns k₂ here

pub lock_acquire-Excl : (l : ℕ) (k : Kernel) → Excl k → Ensures Excl (lock_acquire l k)
unfolding lock_acquire
lock_acquire-Excl l k v = Ensures-assert (not k.in_intr) _ λ off.
    Ensures-assert (not (lock_held_by_current_thread l k)) _
      λ other. Ensures-bind Excl (announce-Excl l k v) λ k' w. acquire_round-Excl l k' w

pub lock_try_acquire-Excl :
    (l : ℕ) (k : Kernel)
    → Excl k
    → (k.thread k.current).frame ≡ done
    → Ensures (λ (r : Bool × Kernel). Excl r.1) (lock_try_acquire l k)
unfolding lock_try_acquire sema_try_down
lock_try_acquire-Excl l k v idle = Ensures-assert (not (lock_held_by_current_thread l k)) _ λ other.
    elim (Bool-cases (ltb 0 (value_of k l))) [
      | inl e ↦ rw e (returns _ (tried-Excl k l v (ground arith) idle))
      | inr e ↦ rw e (returns _ v)
    ]
