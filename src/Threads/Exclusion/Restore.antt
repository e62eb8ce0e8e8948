-- ===== src/Threads/Exclusion/Restore.antt =====
-- The priority of a thread at the first part of `lock_release` (src/threads/synch.c).
use qba.Prelude.{
  ℕ, ◌≤◌, ◌≡◌, ◌≢◌, refl, ap, subst, true, false, none, some, List, [], ◌∷◌, arith, ◌⊎◌, inl, inr,
  ℕ_discrete,
}
use qba.Prelude.Outcome.{ok}
use qba.Threads.Order.{mem, Falls, AtMost-mem}
use qba.Threads.Types.{Kernel}
use qba.Threads.Sync.{priority_left, lock_held_by_current_thread, lock_dropped}
use qba.Threads.Donate.Chain.{pri_of, e_pri_of}
use qba.Threads.Exclusion.Inv.{Excl}
use qba.Threads.Exclusion.Release.{dropped, dropped-Excl}

abbrev pub lock_queue_of : Kernel → ℕ → List ℕ
lock_queue_of k t = (k.thread t).lock_queue

-- The priority is the highest of the locks in the list, or the base priority if there is none.
abbrev pub Highest : Kernel → ℕ → ℕ → List ℕ → Type 0
Highest k t p ls =
    ((ls ≡ []) × (p ≡ (k.thread t).b_pri))
    ⊎ ((m : ℕ) × (mem m ls ≡ true)
        × (p ≡ pri_of k m)
        × ((n : ℕ) → mem n ls ≡ true → pri_of k n ≤ p))

left-Highest :
    (k : Kernel) (t : ℕ) (ls : List ℕ)
    → Falls (pri_of k) ls
    → Highest k t (priority_left (k.thread t) k.lock ls) ls
unfolding mem
left-Highest k t [] f = inl (refl, refl)
left-Highest k t (l ∷ rest) (most, once, f) = inr (
  l,
  ground arith,
  refl,
  λ n h. elim (ℕ_discrete n l) [
    | yes e ↦ ground (arith, ap (pri_of k) e)
    | no ne ↦ AtMost-mem (pri_of k) (pri_of k l) n rest most (ground arith)
  ],
)

-- The first part of a release by the holder succeeds: the lock has no holder any more, and the
-- thread keeps the highest priority of the locks that it still holds, or its base priority if it
-- holds no other.
pub lock_dropped_lem :
    (l : ℕ) (k : Kernel)
    → Excl k
    → lock_held_by_current_thread l k ≡ true
    → (k' : Kernel) × (lock_dropped l k ≡ ok k')
      × ((k'.lock l).holder ≡ none)
      × (mem l (lock_queue_of k' k.current) ≡ false)
      × Highest k' k.current (e_pri_of k' k.current) (lock_queue_of k' k.current)
unfolding lock_dropped lock_held_by_current_thread
lock_dropped_lem l k v e = (
  k',
  rw (v.locks.holds l k.current own) refl,
  ground arith,
  ground (arith, gone),
  subst (λ p. Highest k' k.current p (lock_queue_of k' k.current)) (ground arith)
      (left-Highest k' k.current (lock_queue_of k' k.current)
        ((dropped-Excl k l v own).locks.falls k.current)),
)
  where
    own : (k.lock l).holder ≡ some k.current
    own = ground arith

    k' : Kernel
    k' = dropped k l v own

    gone : mem l (lock_queue_of k' k.current) ≢ true
    gone m = ground (arith, (dropped-Excl k l v own).locks.owned l k.current m)
