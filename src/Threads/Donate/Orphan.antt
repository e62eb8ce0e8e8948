-- ===== src/Threads/Donate/Orphan.antt =====
-- `donate_pri_acquire` of src/threads/synch.c at a lock between its release and its next acquisition.
use qba.Prelude.{ℕ, suc, ◌-◌, ◌<◌, ◌≡◌, ◌≢◌, arith, none, some, subst, ap}
use qba.Prelude.Outcome.{panic}
use qba.Threads.Types.{Kernel, set_e_pri}
use qba.Threads.Donate.{
  finish, climb, climb_from, after_lock, donate_round, donate, or_undefined, donate_pri_acquire,
}
use qba.Threads.Donate.Chain.{
  Queues, Locks, e_pri_of, pri_of, lock_raised, raise_lock-ok, lock_raised-Queues, thread_raised,
  raise_thread-ok,
}
use qba.Threads.Donate.Law.{WaitsFor, HeldBy, requeued-thread, requeued-lock}

module _ {k : Kernel} (l h m : ℕ) (q : Queues k) (c : Locks k) (own : HeldBy k l h)
    (away : h ≢ k.current) (low : pri_of k l < e_pri_of k k.current)
    (less : e_pri_of k h < e_pri_of k k.current) (wait : WaitsFor k h m)
    (free : (k.lock m).holder ≡ none) where
  abbrev k₁ : Kernel
  k₁ = lock_raised h l (e_pri_of k k.current) k

  abbrev k₂ : Kernel
  k₂ = thread_raised h (e_pri_of k k.current) k₁

  first_round : donate_round k.current l (some h) k ≡ climb h m k₂
  unfolding donate_round after_lock climb_from
  first_round = ground (
    arith,
    raise_lock-ok h l (e_pri_of k k.current) k (c.holds l h own),
    raise_thread-ok h (e_pri_of k k.current) k₁ (lock_raised-Queues h l (e_pri_of k k.current) k q)
        away {l = l} (ground arith),
    ap (λ f. f h) (requeued-thread h (k₁.thread h).queue (set_e_pri k₁ h (e_pri_of k k.current))),
  )

  second_round : donate_round h m (k₂.lock m).holder k₂ ≡ finish panic
  unfolding donate_round
  second_round = ground (
    arith,
    ap (λ f. f m) (requeued-lock h (k₁.thread h).queue (set_e_pri k₁ h (e_pri_of k k.current))),
  )

  two_rounds : (fuel : ℕ) → donate (suc (suc fuel)) k.current l k ≡ some panic
  unfolding donate
  two_rounds fuel = ground (arith, own, first_round, second_round)

  -- With the queues of threads and locks in order, `ASSERT(donee != NULL)` fails and the machine halts
  -- when the running thread asks for a lock whose priority and whose holder's are lower than its own,
  -- and the holder is itself waiting for a lock that its last holder has released and nobody has taken
  -- yet.
  pub donation_halts : 0 < k.lock_cnt → donate_pri_acquire k.current l k ≡ panic
  unfolding donate_pri_acquire
  donation_halts some_locks =
      subst (λ n. or_undefined (donate (suc n) k.current l k) ≡ panic) enough
        (ap or_undefined (two_rounds (k.lock_cnt - 1)))
    where
      enough : suc (k.lock_cnt - 1) ≡ k.lock_cnt
      enough = omega arith
